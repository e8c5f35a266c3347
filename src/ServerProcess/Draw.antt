-- ===== src/ServerProcess/Draw.antt =====
-- The ports that GetRandomPort of
-- AspNetCoreModuleV2/RequestHandler/outofprocess/serverprocess.cxx picks.
use iisintegration.Prelude.{
  ℕ, zero, suc, ◌+◌, ◌-◌, ◌%◌, ◌≤◌, ◌<◌, ◌≡◌, refl, arith, Bool, true, false, not, Option, none,
  some, ◌==◌, if-both,
}
use iisintegration.ServerProcess.Codes.{Code, success, failed_code}
use iisintegration.ServerProcess.Port.{
  min_port, max_port, max_retry, Probe, check_if_server_is_up, draw_port, search_port,
  get_random_port,
}

-- A port that can be drawn: above MIN_PORT, and as far as the largest random number reaches.
abbrev pub IsDrawn : (ℕ → ℕ) → ℕ → Type 0
IsDrawn rand port =
    (min_port < port)
    × (port ≤ max_port)
    × ((m : ℕ) → ((k : ℕ) → rand k ≤ m) → port ≤ min_port + 1 + m)

draw-IsDrawn : (rand : ℕ → ℕ) (k : ℕ) → IsDrawn rand (rand k % (max_port - min_port) + min_port + 1)
draw-IsDrawn rand k = (omega arith, omega arith, λ m h. omega (arith, h k))

-- The port 0, which is no port, and all others below the range are never drawn.
draw_port-low :
    (f : ℕ) (rand : ℕ → ℕ) (excluded k : ℕ)
    → excluded ≤ min_port
    → (port : ℕ) × (draw_port (suc f) rand excluded k ≡ some (port, k + 1)) × IsDrawn rand port
unfolding draw_port
draw_port-low f rand excluded k h =
    let port = rand k % (max_port - min_port) + min_port + 1 in
    let d = draw-IsDrawn rand k in (port, ground (arith, d.0), d)

-- A code that is no failure comes with a check, one of `left` from the first on, that has found the
-- port free.
abbrev pub IsFree : (ℕ → Probe) → ℕ → ℕ → Code → ℕ → Type 0
IsFree probe first left hr port =
    failed_code hr ≡ false
    → (j : ℕ) × (first ≤ j)
      × (j < first + left)
      × ((check_if_server_is_up (probe j) port).up ≡ false)

abbrev Searched : (ℕ → ℕ) → (ℕ → Probe) → ℕ → ℕ → Option (Code × ℕ) → Type 0
Searched rand probe first left none = ⊥
Searched rand probe first left (some (hr, port)) =
    IsDrawn rand port × IsFree probe first left hr port

Searched-later :
    (rand : ℕ → ℕ) (probe : ℕ → Probe) (first left : ℕ) (o : Option (Code × ℕ))
    → Searched rand probe (first + 1) left o
    → Searched rand probe first (suc left) o
Searched-later rand probe first left none h = h
Searched-later rand probe first left (some (hr, port)) (d, free) =
    (d, λ ok. let (j, a, b, up) = free ok in (j, omega arith, omega arith, up))

search_port-Searched :
    (left f : ℕ) (rand : ℕ → ℕ) (probe : ℕ → Probe) (excluded k j : ℕ)
    → excluded ≤ min_port
    → Searched rand probe j (suc left) (search_port (suc left) (suc f) rand probe excluded k j)
unfolding search_port
search_port-Searched zero f rand probe excluded k j h =
    let (port, drawn, d) = draw_port-low f rand excluded k h in
    rw (Searched, drawn)
      (if-both (Searched rand probe j 1) (not (check_if_server_is_up (probe j) port).up) _ _
        (λ free. (d, λ ok. (j, omega arith, omega arith, ground arith)))
        (λ busy. (d, λ ok. absurd (ground arith))))
search_port-Searched (suc left) f rand probe excluded k j h =
    let (port, drawn, d) = draw_port-low f rand excluded k h in
    rw (Searched, drawn)
      (if-both (Searched rand probe j (suc (suc left)))
        (not (check_if_server_is_up (probe j) port).up) _ _
        (λ free. (d, λ ok. (j, omega arith, omega arith, ground arith)))
        (λ busy.
          if-both (Searched rand probe j (suc (suc left))) (suc left == 0) _ _
            (λ z. absurd (ground arith))
            (λ more.
              Searched-later rand probe j (suc left) _
                (search_port-Searched left f rand probe excluded (k + 1) (j + 1) h))))

search_result :
    (rand : ℕ → ℕ) (probe : ℕ → Probe) (first left : ℕ) (o : Option (Code × ℕ))
    → Searched rand probe first left o
    → (r : Code × ℕ) × (o ≡ some r) × IsDrawn rand r.1 × IsFree probe first left r.0 r.1
search_result rand probe first left none h = absurd h
search_result rand probe first left (some r) h = (r, refl, h.0, h.1)

-- With a port excluded that lies below the range, as the 0 that SetupListenPort excludes, one draw of
-- the random number per port is enough: GetRandomPort ends, after ten checks at most, with a port above
-- MIN_PORT and at most MAX_PORT, which is no further above MIN_PORT + 1 than the largest random number. If the
-- TCP table can be read and the code is no failure, then one of the ten checks has found that port free.
pub get_random_port-IsDrawn :
    (f : ℕ) (nsi : Bool) (rand : ℕ → ℕ) (probe : ℕ → Probe) (excluded : ℕ)
    → excluded ≤ min_port
    → (r : Code × ℕ) × (get_random_port (suc f) nsi rand probe excluded ≡ some r)
      × IsDrawn rand r.1
      × (nsi ≡ true → IsFree probe 0 max_retry r.0 r.1)
unfolding get_random_port
get_random_port-IsDrawn f true rand probe excluded h =
    let (r, e, d, free) =
      search_result rand probe 0 max_retry _ (search_port-Searched 9 f rand probe excluded 0 0 h) in
    (r, e, d, λ n. free)
get_random_port-IsDrawn f false rand probe excluded h =
    let (port, drawn, d) = draw_port-low f rand excluded 0 h in
    ((success, port), rw drawn refl, d, λ n. absurd (ground arith))
