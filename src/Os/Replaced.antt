-- ===== src/Os/Replaced.antt =====
-- A process whose place another program takes.
use edgi_os.Base.{Bytes, List, [], ◌∷◌, ◌++◌, ◌≡◌}
use edgi_os.Os.World.{Event, replaced, World}

-- The last event is that the program was started with these arguments, in the environment as it is.
abbrev pub Last : Bytes → List Bytes → World → Type 0
Last program args w = (before : List Event) × (w.trace ≡ before ++ replaced program args w.env ∷ [])
