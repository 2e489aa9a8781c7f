-- ===== src/Os/Process.antt =====
-- Commands, standard input, the network and the kernel's settings.
use edgi_os.Base.{
  Bytes, ℕ, same, is_empty, take, length, if◌then◌else◌, List, [], ◌∷◌, Option, none, some,
}
use edgi_os.Os.World.{
  Error, eof, errno, Result, ok, err, Outcome, Response, ran, printed, fetched, hostname_set,
  module_loaded, mounted, replaced, moved_to, chrooted, synced, World, M, call, emit,
}

abbrev pub outcome_result : Option Error → Bytes → Result Bytes
outcome_result none s = ok s
outcome_result (some e) s = err e

abbrev pub after_outcome : List Outcome → World → Result Bytes × World
after_outcome [] w = (ok [], w)
after_outcome (o ∷ os) w =
    (outcome_result o.failure o.output, record w { outcomes = os; files = o.effect w.files })

-- exec.Command(program, args...).Run(), with its standard input and what is added to the environment
unfoldable pub run : Bytes → List Bytes → Bytes → List Bytes → M Bytes
run program args stdin env w = after_outcome w.outcomes (emit (ran program args stdin env) w)

-- bufio.NewReader(os.Stdin).ReadString('\n'), the newline dropped. Each call makes a reader, whose buffer
-- is lost behind it; it leaves no more lines than there were.
unfoldable pub read_line : M Bytes
read_line w = elim w.input [
  | [] ↦ (err eof, w)
  | l ∷ ls ↦ (ok l, record w { input = take (length ls) (w.unbuffered ls) })
]

abbrev pub print : Bytes → M (Unit {0})
print s w = (ok tt, emit (printed s) w)

-- http.Get
unfoldable pub http_get : Bytes → M Response
http_get url w = elim w.responses [
  | [] ↦ (err (errno 111), emit (fetched url) w)
  | r ∷ rs ↦ (r, emit (fetched url) (record w { responses = rs }))
]

-- syscall.Sethostname and os.Hostname
unfoldable pub sethostname : Bytes → M (Unit {0})
sethostname s = call (λ w. (ok tt, emit (hostname_set s) (record w { hostname = s })))

unfoldable pub gethostname : M Bytes
gethostname = call (λ w. (ok w.hostname, w))

-- modprobe.Load
unfoldable pub load_module : Bytes → Bytes → M (Unit {0})
load_module name params = call (λ w. (ok tt, emit (module_loaded name params) w))

-- mount(2)
unfoldable pub mount : Bytes → Bytes → Bytes → ℕ → Bytes → M (Unit {0})
mount source target fstype flags options =
    call (λ w. (ok tt, emit (mounted source target fstype flags options) w))

-- os.Getenv and os.Setenv; an unset variable is an empty one.
unfoldable pub getenv : Bytes → M Bytes
getenv k w = (ok (w.env k), w)

unfoldable pub setenv : Bytes → Bytes → M (Unit {0})
setenv k v w = (ok tt, record w { env = λ j. if same k j then v else w.env j })

-- syscall.Exec with os.Environ(): when it works, the process is another one.
unfoldable pub exec : Bytes → List Bytes → M (Unit {0})
exec program args = call (λ w. (ok tt, emit (replaced program args w.env) w))

-- syscall.Exec with an environment of its own, which is that of the process from then on
unfoldable pub exec_env : Bytes → List Bytes → (Bytes → Bytes) → M (Unit {0})
exec_env program args env =
    call (λ w. (ok tt, emit (replaced program args env) (record w { env = env })))

-- append(os.Environ(), k+"="+v) as os.Getenv reads it: of two entries for a name the first one counts.
unfoldable pub append_env : Bytes → Bytes → (Bytes → Bytes) → Bytes → Bytes
append_env k v env j = if same k j then (if is_empty (env j) then v else env j) else env j

-- os.Chdir, syscall.Chroot and unix.Sync
unfoldable pub chdir : Bytes → M (Unit {0})
chdir p = call (λ w. (ok tt, emit (moved_to p) w))

unfoldable pub chroot : Bytes → M (Unit {0})
chroot p = call (λ w. (ok tt, emit (chrooted p) w))

unfoldable pub sync : M (Unit {0})
sync w = (ok tt, emit synced w)
