-- ===== src/Os/World.antt =====
-- The state of the machine as the program sees it, and the monad of its fallible calls.
-- The answers of everything outside are lists in the state that the calls use up from the front:
-- theorems that hold for every state hold for every answer.
use edgi_os.Base.Strings.{Signed}
use edgi_os.Base.{Bytes, ℕ, Bool, List, [], ◌∷◌, ◌++◌, Option, if◌then◌else◌}

pub data Error : Type 0 where
  -- the error that os.IsNotExist recognises
  not_exist : Error
  -- any other failure of a call, by its number
  errno : ℕ → Error
  -- io.EOF
  eof : Error
  -- an error that the program makes, and one that it wraps in a text
  message : Bytes → Error
  wrapped : Bytes → Error → Error

pub data Result {ℓ} (A : Type ℓ) : Type ℓ where
  ok : A → Result A
  err : Error → Result A

pub data Node : Type 0 where
  -- permissions and content
  file : ℕ → Bytes → Node
  directory : ℕ → Node
  -- a symbolic link and its target
  link : Bytes → Node

-- The file system: what stands at a path.
abbrev pub Files : Type 0
Files = Bytes → Option Node

-- How the outside meets a call: it works, it fails and changes nothing, or it is a write that
-- fails after so many bytes.
pub data Fault : Type 0 where
  fine : Fault
  fail : Error → Fault
  short : ℕ → Error → Fault

-- What a command that was run comes back with; it may do anything to the files.
pub record Outcome : Type 0 where
  pub failure : Option Error
  pub output : Bytes
  pub effect : Files → Files

pub record Response : Type 0 where
  pub status : ℕ
  pub body : Bytes

-- What the program asked of the kernel and of other programs, besides the calls on files.
pub data Event : Type 0 where
  -- program, arguments, standard input, and the variables added to the environment
  ran : Bytes → List Bytes → Bytes → List Bytes → Event
  -- source, target, type, flags and data of a mount
  mounted : Bytes → Bytes → Bytes → ℕ → Bytes → Event
  hostname_set : Bytes → Event
  module_loaded : Bytes → Bytes → Event
  owned : Bytes → Signed → Signed → Event
  fetched : Bytes → Event
  slept : Event
  -- what was printed, to the standard output and to the standard error
  printed : Bytes → Event
  printed_error : Bytes → Event
  logged : Bytes → Event
  synced : Event
  chrooted : Bytes → Event
  moved_to : Bytes → Event
  device_made : Bytes → ℕ → ℕ → Event
  pivoted : Bytes → Bytes → Event
  -- the process image was replaced, by this program with these arguments and variables: nothing after
  -- it runs
  replaced : Bytes → List Bytes → (Bytes → Bytes) → Event

pub record World : Type 0 where
  pub files : Files
  pub faults : List Fault
  pub outcomes : List Outcome
  pub responses : List (Result Response)
  -- the lines that standard input still holds
  pub input : List Bytes
  -- What a reader with a buffer leaves of the lines behind the one that it returns, once it is dropped
  -- with its buffer: all of them on a terminal, and those that the buffer did not take elsewhere.
  pub unbuffered : List Bytes → List Bytes
  -- whether the standard output is a terminal
  pub terminal : Bool
  -- the suffixes that ioutil.TempFile draws
  pub random : List Bytes
  -- what the umask leaves of the permissions of a new file
  pub mask : ℕ → ℕ
  pub hostname : Bytes
  -- the environment of the process; an unset variable is empty
  pub env : Bytes → Bytes
  pub trace : List Event

abbrev pub M {ℓ} : Type ℓ → Type ℓ
M A = World → Result A × World

module _ {ℓ} {A : Type ℓ} where
  unfoldable pub pure : A → M A
  pure a w = (ok a, w)

  unfoldable pub raise : Error → M A
  raise e w = (err e, w)

  unfoldable pub lift : Result A → M A
  lift r w = (r, w)

  unfoldable pub gets : (World → A) → M A
  gets f w = (ok (f w), w)

  -- The result or the error of an action, as a value: `if err := f(); err != nil`.
  unfoldable pub attempt : M A → M (Result A)
  attempt m w = let (r, w') = m w in (ok r, w')

  -- `defer`: the clean-up runs after the body, whatever came of it, and its own error is dropped.
  unfoldable pub defer : M (Unit {0}) → M A → M A
  defer cleanup m w = let (r, w') = m w in (r, (cleanup w').1)

module _ {ℓ κ} {A : Type ℓ} {B : Type κ} where
  abbrev pub continue : Result A → (A → M B) → M B
  continue (ok a) f w = f a w
  continue (err e) f w = (err e, w)

  infixl 5 ◌>>=◌ ◌>>◌
  -- Opening this opens the actions above.
  unfoldable pub ◌>>=◌ : M A → (A → M B) → M B
  unfolding pure raise lift gets attempt defer
  ◌>>=◌ m f w = let (r, w') = m w in continue r f w'

  abbrev pub ◌>>◌ : M A → M B → M B
  m >> n = m >>= λ _. n

-- `for _, x := range xs { if err := f(x); err != nil { return err } }`
unfoldable pub for_each {ℓ} : {A : Type ℓ} → List A → (A → M (Unit {0})) → M (Unit {0})
unfolding ◌>>=◌
for_each [] f = pure tt
for_each (x ∷ xs) f = let rest = for_each xs f in f x >> rest

-- The same loop where the body logs or drops its error and goes on.
unfoldable pub for_all {ℓ} : {A : Type ℓ} → List A → (A → M (Unit {0})) → M (Unit {0})
unfolding ◌>>=◌
for_all [] f = pure tt
for_all (x ∷ xs) f = let rest = for_all xs f in attempt (f x) >> rest

abbrev pub when : Bool → M (Unit {0}) → M (Unit {0})
when b m = if b then m else pure tt

abbrev pub head_fault : List Fault → Fault
head_fault [] = fine
head_fault (f ∷ fs) = f

abbrev pub rest_faults : List Fault → List Fault
rest_faults [] = []
rest_faults (f ∷ fs) = fs

-- The state after one more call has met its fault.
abbrev pub charge : World → World
charge w = record w { faults = rest_faults w.faults }

abbrev pub under_fault {ℓ} :
    {A : Type ℓ} → Fault → (World → Result A × World) → World → Result A × World
under_fault fine m w = m w
under_fault (fail e) m w = (err e, w)
under_fault (short n e) m w = (err e, w)

-- A call that works as `m` says unless a fault stops it.
abbrev pub call {ℓ} : {A : Type ℓ} → (World → Result A × World) → World → Result A × World
call m w = under_fault (head_fault w.faults) m (charge w)

abbrev pub emit : Event → World → World
emit e w = record w { trace = w.trace ++ e ∷ [] }

-- logrus and log: a line in the log, which cannot fail.
unfoldable pub log : Bytes → M (Unit {0})
log s w = (ok tt, emit (logged s) w)
