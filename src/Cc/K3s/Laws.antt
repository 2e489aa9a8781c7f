-- ===== src/Cc/K3s/Laws.antt =====
-- What the k3s installer is run with.
use mathlib.Core.List.{Perm}
use mathlib.Core.List.Perm
use mathlib.Core.Path.{fun_ext}
use edgi_os.Base.{
  Bytes, codes, Bool, true, false, List, [], ◌∷◌, ◌++◌, Option, none, some, ◌≡◌, ◌⊎◌, inl, inr,
  refl, ap, arith, Bool-cases,
}
use edgi_os.Base.Sort.Laws.{sort_strings-perm}
use edgi_os.Os.World.{ran, World, M, pure, ◌>>=◌}
use edgi_os.Os.Process.{run}
use edgi_os.Config.Types.{CloudConfig, Entries}
use edgi_os.Cc.K3s.{
  Site, entry_labels, k3s_args, k3s_vars, install_k3s, install_at, survey, apply_k3s, role_args,
  label_args, taint_args,
}

abbrev pub with_labels : CloudConfig → Entries → CloudConfig
with_labels cfg ls = record cfg { edgi = record cfg.edgi { labels = ls } }

entry_labels-perm : {ls ms : Entries} → Perm ls ms → Perm (entry_labels ls) (entry_labels ms)
entry_labels-perm p = Perm.map _ p

k3s_args-perm :
    (version : Bytes) (cfg : CloudConfig) (s : Site) {ls ms : Entries}
    → Perm ls ms
    → k3s_args version (with_labels cfg ls) s ≡ k3s_args version (with_labels cfg ms) s
unfolding k3s_args
k3s_args-perm version cfg s p =
    ap
      (λ (ts : List Bytes).
        role_args cfg.edgi.k3s_args cfg.edgi.server_url
        ++ (label_args ts ++ taint_args cfg.edgi.taints))
      (sort_strings-perm (Perm.append (entry_labels-perm p) (Perm.refl _)))

install_at-perm :
    (version : Bytes) (cfg : CloudConfig) {ls ms : Entries}
    → Perm ls ms
    → (o : Option Site)
    → install_at version (with_labels cfg ls) o ≡ install_at version (with_labels cfg ms) o
unfolding install_k3s k3s_vars
install_at-perm version cfg p none = refl
install_at-perm version cfg {ls} {ms} p (some s) = rw (k3s_args-perm version cfg s p)

-- The order in which the map of labels is visited makes no difference to anything that is done.
pub apply_k3s-perm :
    (version : Bytes) (cfg : CloudConfig) (ls ms : Entries) (restart install : Bool) (w : World)
    → Perm ls ms
    → apply_k3s version (with_labels cfg ls) restart install w
      ≡ apply_k3s version (with_labels cfg ms) restart install w
unfolding apply_k3s
apply_k3s-perm version cfg ls ms restart install w p =
    ap (λ (f : Option Site → M (Unit {0})). (survey restart install >>= f) w)
      (fun_ext (install_at-perm version cfg p))

-- The text stands in the list.
abbrev pub Has : Bytes → List Bytes → Type 0
Has s [] = ⊥
Has s (t ∷ ts) = (s ≡ t) ⊎ Has s ts

run_trace :
    (version : Bytes) (cfg : CloudConfig) (s : Site) (w : World)
    → s.k3s_exists ≡ true
    → (install_k3s version cfg s w).1.trace
      ≡ w.trace
        ++ ran
            (codes "/usr/libexec/edgi/k3s-install.sh")
            (k3s_args version cfg s)
            []
            (k3s_vars cfg s)
          ∷ []
unfolding install_k3s run ◌>>=◌
run_trace version cfg s w e = ground arith

idle :
    (version : Bytes) (cfg : CloudConfig) (s : Site) (w : World)
    → s.k3s_exists ≡ false
    → s.restart ≡ false
    → (install_k3s version cfg s w).1 ≡ w
unfolding install_k3s pure
idle version cfg s w e h = ground arith

-- With no restart the installer is run at most once, and then told neither to download nor to start
-- anything.
pub install_k3s-no_restart :
    (version : Bytes) (cfg : CloudConfig) (s : Site) (w : World)
    → s.restart ≡ false
    → ((install_k3s version cfg s w).1 ≡ w)
      ⊎ (((install_k3s version cfg s w).1.trace
            ≡ w.trace
              ++ ran
                  (codes "/usr/libexec/edgi/k3s-install.sh")
                  (k3s_args version cfg s)
                  []
                  (k3s_vars cfg s)
                ∷ [])
          × Has (codes "INSTALL_K3S_SKIP_DOWNLOAD=true") (k3s_vars cfg s)
          × Has (codes "INSTALL_K3S_SKIP_START=true") (k3s_vars cfg s))
install_k3s-no_restart version cfg s w h = elim (Bool-cases s.k3s_exists) [
  | inl e ↦ inr (
    run_trace version cfg s w e,
    unfold k3s_vars in rw e (inr (inl refl)),
    unfold k3s_vars in rw (e, h) (inr (inr (inr (inr (inl refl))))),
  )
  | inr n ↦ inl (idle version cfg s w n h)
]
