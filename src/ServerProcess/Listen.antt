-- ===== src/ServerProcess/Listen.antt =====
-- The port that a server process listens on: SetupListenPort of
-- AspNetCoreModuleV2/RequestHandler/outofprocess/serverprocess.cxx.
use iisintegration.Prelude.{
  ℕ, suc, ◌+◌, ◌-◌, ◌*◌, ◌^◌, ◌≤◌, ◌<◌, ◌≡◌, refl, sym, subst, ◌∙◌, ◌⊎◌, inl, inr, arith, true,
  false, not, ◌||◌, [], ◌∷◌, Option, none, some, ltb, if-both, Option-cases, ==_refl,
}
use iisintegration.FxVer.RoundTrip.{IsNumber, print_int-IsNumber, both_true, digit_ne}
use iisintegration.FxVer.Parse.{is_digit, print_int, all_digits, value}
use iisintegration.ServerProcess.{Text, Server}
use iisintegration.ServerProcess.Codes.{
  Code, success, failure, invalid_argument, already_exists, failed_code,
}
use iisintegration.ServerProcess.Environment.{
  Memory, Table, Entry, EntryAnswers, put_entry_for, find_entry, insert_entry, same_name,
}
use iisintegration.ServerProcess.Port.{
  min_port, max_port, get_random_port, wtoi, is_blank, leading_value, port_env, PortAnswers,
  PortResult, keep_text, use_configured_port, put_port, choose_port, setup_listen_port,
}
use iisintegration.ServerProcess.Draw.{get_random_port-IsDrawn}

digit_blank : (c : ℕ) → is_digit c ≡ true → is_blank c ≡ false
digit_blank c h = ground arith

-- The digits of a number that fits are read back.
leading_value-digits : (n : ℕ) (t : Text) → all_digits t ≡ true → leading_value n t ≡ value n t
leading_value-digits n [] h = refl
leading_value-digits n (c ∷ t) h =
    let (d, r) = both_true (is_digit c) (all_digits t) h in
    rw d (leading_value-digits (n * 10 + (c - 48)) t r)

wtoi-IsNumber : (n : ℕ) (t : Text) → n < 2 ^ 31 → IsNumber n t → wtoi t ≡ n
wtoi-IsNumber n [] h (e, d, v) = absurd (ground arith)
wtoi-IsNumber n (c ∷ t) h (e, d, v) =
    let (digit, r) = both_true (is_digit c) (all_digits t) d in
    let l = leading_value-digits 0 (c ∷ t) d ∙ v in
    rw (digit_blank c digit, digit_ne c 45 digit refl, digit_ne c 43 digit refl, l) (ground arith)

-- The number that `swprintf_s` writes for a port is the one that `_wtoi` reads.
wtoi-print_int : (n : ℕ) → n < 2 ^ 31 → wtoi (print_int n) ≡ n
wtoi-print_int n h = wtoi-IsNumber n (print_int n) h (print_int-IsNumber n h)

same_name_refl : (lower : ℕ → ℕ) (n : Text) → same_name lower n n ≡ true
same_name_refl lower [] = refl
same_name_refl lower (c ∷ n) = rw (==_refl (lower c)) (same_name_refl lower n)

-- What an outcome of SetupListenPort says. `port` and `port_text` alone change in the server. After a
-- success the port is in the range and is the number that the entry of the table holds; the
-- critical-error flag comes with the port out of range.
abbrev pub IsListening : (ℕ → ℕ) → Server → PortResult → Type 0
IsListening lower s ((hr, critical), (t', s')) =
    (s' ≡ record s { port = s'.port; port_text = s'.port_text })
    × (critical ≡ true
        → (hr ≡ failure invalid_argument) × ((s'.port < min_port) ⊎ (max_port < s'.port)))
    × (failed_code hr ≡ false
        → (min_port ≤ s'.port)
          × (s'.port ≤ max_port)
          × (e : Entry) × (find_entry lower port_env t' ≡ some e)
          × (wtoi e.value ≡ s'.port)
          × (s'.port_text ≡ e.value))

keep_text-IsListening :
    (lower : ℕ → ℕ) (copied : Code) (e : Entry) (t : Table) (s : Server)
    → find_entry lower port_env t ≡ some e
    → min_port ≤ wtoi e.value
    → wtoi e.value ≤ max_port
    → IsListening lower s (keep_text copied e.value t (record s { port = wtoi e.value }))
keep_text-IsListening lower copied e t s found low high =
    if-both (λ (s' : Server). IsListening lower s ((copied, false), (t, s'))) (failed_code copied) _
      _ (λ no. (refl, λ c. absurd (ground arith), λ ok. absurd (ground arith)))
      (λ yes. (refl, λ c. absurd (ground arith), λ ok. (low, high, e, found, refl, refl)))

use_configured_port-IsListening :
    (a : PortAnswers) (lower : ℕ → ℕ) (e : Entry) (t : Table) (s : Server)
    → find_entry lower port_env t ≡ some e
    → IsListening lower s (use_configured_port a e.value t s)
use_configured_port-IsListening a lower e t s found =
    if-both (IsListening lower s) (ltb max_port (wtoi e.value) || ltb (wtoi e.value) min_port) _ _
      (λ out. (refl, λ c. (refl, ground arith), λ ok. absurd (ground arith)))
      (λ within. keep_text-IsListening lower a.copy_value e t s found (ground arith) (ground arith))

insert_entry-find_entry :
    (lower : ℕ → ℕ) (node : Memory) (e : Entry) (t : Table)
    → failed_code (insert_entry lower node e t).0 ≡ false
    → find_entry lower e.name (insert_entry lower node e t).1 ≡ some e
insert_entry-find_entry lower node e t =
    if-both (λ (r : Code × Table). failed_code r.0 ≡ false → find_entry lower e.name r.1 ≡ some e)
      (not (node e.name)) _ _ (λ no ok. absurd (ground arith))
      (λ yes.
        elim (find_entry lower e.name t)
          as (λ o.
            let r = elim o as (λ _. Code × Table) [
              | some d ↦ (failure already_exists, t)
              | none ↦ (success, e ∷ t)
            ] in
            failed_code r.0 ≡ false → find_entry lower e.name r.1 ≡ some e) [
              | some d ↦ λ ok. absurd (ground arith)
              | none ↦ λ ok. rw (same_name_refl lower e.name) refl
            ])

-- A new entry is found under its name.
pub put_entry_for-find_entry :
    (lower : ℕ → ℕ) (a : EntryAnswers) (e : Entry) (t : Table)
    → failed_code (put_entry_for lower a e t).0 ≡ false
    → find_entry lower e.name (put_entry_for lower a e t).1 ≡ some e
put_entry_for-find_entry lower a e t =
    let P = λ (r : Code × Table). failed_code r.0 ≡ false → find_entry lower e.name r.1 ≡ some e in
    if-both P (not a.memory) _ _ (λ no ok. absurd (ground arith))
      (λ _.
        if-both P (failed_code a.initialized) _ _ (λ no ok. absurd (ground arith))
          (λ _. insert_entry-find_entry lower a.node e t))

port_entry : ℕ → Entry
port_entry port = record { name = port_env; value = print_int port }

refused_port :
    (lower : ℕ → ℕ) (hr : Code) (port : ℕ) (t : Table) (s : Server)
    → failed_code hr ≡ true
    → IsListening lower s ((hr, false), (t, record s { port = port }))
refused_port lower hr port t s f = (refl, λ c. absurd (ground arith), λ ok. absurd (ground arith))

put_port-IsListening :
    (a : PortAnswers) (lower : ℕ → ℕ) (hr : Code) (port : ℕ) (t : Table) (s : Server)
    → min_port < port
    → port ≤ max_port
    → IsListening lower s (put_port a lower (hr, port) t s)
unfolding port_entry
put_port-IsListening a lower hr port t s low high =
    let r : Code × Table = put_entry_for lower a.entry (port_entry port) t in
    let read = wtoi-print_int port (omega arith) in
    if-both (IsListening lower s) (failed_code hr) _ _ (refused_port lower hr port t s) (λ _.
      if-both (IsListening lower s) (failed_code r.0) _ _ (refused_port lower r.0 port r.1 s)
        (λ put.
          subst
            (λ n.
              IsListening lower s
                (keep_text a.copy_buffer (print_int port) r.1 (record s { port = n })))
            read
            (keep_text-IsListening lower a.copy_buffer (port_entry port) r.1 s
              (put_entry_for-find_entry lower a.entry (port_entry port) t put)
              (rw read (omega arith)) (rw read (omega arith)))))

abbrev Listens : (ℕ → ℕ) → Server → Option PortResult → Type 0
Listens lower s o = (r : PortResult) × (o ≡ some r) × IsListening lower s r

choose_port_eq :
    (a : PortAnswers) (lower : ℕ → ℕ) (t : Table) (s : Server) (r : Code × ℕ)
    → get_random_port a.fuel a.nsi a.rand a.probe 0 ≡ some r
    → choose_port a lower t s ≡ some (put_port a lower r t s)
choose_port_eq a lower t s r e = rw (choose_port, e) refl

choose_port-Listens :
    (a : PortAnswers) (f : ℕ) (lower : ℕ → ℕ) (t : Table) (s : Server)
    → a.fuel ≡ suc f
    → Listens lower s (choose_port a lower t s)
choose_port-Listens a f lower t s h =
    let (r, e, d, free) = get_random_port-IsDrawn f a.nsi a.rand a.probe 0 (omega arith) in
    (
      put_port a lower r t s,
      choose_port_eq a lower t s r
          (subst (λ n. get_random_port n a.nsi a.rand a.probe 0 ≡ some r) (sym h) e),
      put_port-IsListening a lower r.0 r.1 t s d.0 d.1,
    )

-- SetupListenPort ends, with a draw for each check as its fuel. Of the server it changes the port and its
-- text alone. If its code is no failure, then the port lies between MIN_PORT and MAX_PORT, the table has a
-- variable for the port whose text `_wtoi` reads as that port, and the server keeps that text. It sets the
-- critical-error flag only with E_INVALIDARG and a port outside that range.
pub setup_listen_port-IsListening :
    (a : PortAnswers) (f : ℕ) (lower : ℕ → ℕ) (t : Table) (s : Server)
    → a.fuel ≡ suc f
    → (r : PortResult) × (setup_listen_port a lower t s ≡ some r) × IsListening lower s r
unfolding setup_listen_port
setup_listen_port-IsListening a f lower t s h = elim (Option-cases (find_entry lower port_env t)) [
  | inl missing ↦ rw (setup_listen_port, missing) (choose_port-Listens a f lower t s h)
  | inr (e, found) ↦ (
    use_configured_port a e.value t s,
    rw (setup_listen_port, found) refl,
    use_configured_port-IsListening a lower e t s found,
  )
]
