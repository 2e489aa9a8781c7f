-- ===== src/Ask/Fuel.antt =====
-- The loop over the wireless networks ends.
use edgi_os.Base.{
  codes, ℕ, zero, suc, ◌<◌, ◌≤◌, ◌≡◌, [], arith, length, Bool, true, false, if◌then◌else◌,
}
use edgi_os.Os.World.{World, M, pure}
use edgi_os.Os.Lines.{Alike, Takes-less, Alike-none, Alike-refl, Alike-bind}
use edgi_os.Config.Types.{CloudConfig}
use edgi_os.Questions.Fuel.{prompt-Takes, prompt_bool-Takes}
use edgi_os.Ask.{wifi_from}

after_network-Alike :
    (bound : ℕ) (more : Bool) (again again' : CloudConfig → M CloudConfig) (cfg : CloudConfig)
    → ((c : CloudConfig) → Alike bound (again c) (again' c))
    → Alike bound (if more then again cfg else pure cfg) (if more then again' cfg else pure cfg)
after_network-Alike bound true again again' cfg k = k cfg
after_network-Alike bound false again again' cfg k = Alike-refl bound (pure cfg)

wifi_from-Alike :
    (bound n m : ℕ) (cfg : CloudConfig)
    → bound ≤ n
    → bound ≤ m
    → Alike bound (wifi_from n cfg) (wifi_from m cfg)
unfolding wifi_from
wifi_from-Alike zero n m cfg b c = Alike-none _ _
wifi_from-Alike (suc k) zero m cfg b c = absurd (omega (arith, b))
wifi_from-Alike (suc k) (suc n) zero cfg b c = absurd (omega (arith, c))
wifi_from-Alike (suc k) (suc n) (suc m) cfg b c =
    Alike-bind 1 k (suc k) _ _ _ (omega arith) (prompt-Takes (codes "WiFi Name: ") []) λ name.
      Alike-bind 0 k k _ _ _ (omega arith)
        (Takes-less 0 1 _ (omega arith) (prompt-Takes (codes "WiFi Passphrase: ") []))
        λ pass.
          Alike-bind 0 k k _ _ _ (omega arith)
            (Takes-less 0 1 _ (omega arith)
              (prompt_bool-Takes (codes "Configure another WiFi network?") false))
            λ more.
              after_network-Alike k more (wifi_from n) (wifi_from m) _
                (λ d. wifi_from-Alike k n m d (omega (arith, b)) (omega (arith, c)))

-- The loop of AskWifi over the networks ends after at most as many rounds as there are lines of input: with any
-- number of rounds that is larger than that of the lines, it comes to the same result and the same state.
pub wifi_from-enough :
    (n m : ℕ) (cfg : CloudConfig) (w : World)
    → length w.input < n
    → length w.input < m
    → wifi_from n cfg w ≡ wifi_from m cfg w
wifi_from-enough n m cfg w b c =
    (wifi_from-Alike (suc (length w.input)) n m cfg (omega (arith, b)) (omega (arith, c))).at w
      (omega arith)
