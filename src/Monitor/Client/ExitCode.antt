-- ===== src/Monitor/Client/ExitCode.antt =====
-- The exit code of `xport monitor` in internal/monitor/client.go, by the answers of the nodes.
use go_xport.Common.{
  ℕ, ◌≡◌, ◌⊎◌, inl, inr, refl, ap, ◌∙◌, sym, Bool, true, false, List, [], ◌∷◌, Bytes, Option, none,
  some, codes, equal, equal_iff, Bool-cases, arith,
}
use mathlib.Core.Option.{some-injective}
use go_xport.Monitor.Client.{PollResult, state_of, code_by, exit_code_from, evaluate_exit_code}

-- The node is down or reports FAIL.
abbrev pub IsBad : PollResult → Type 0
IsBad res = (state_of res ≡ none) ⊎ (state_of res ≡ some (codes "fail"))

abbrev pub IsWarn : PollResult → Type 0
IsWarn res = state_of res ≡ some (codes "warn")

-- Some result of the list has the property.
abbrev pub Some : (PollResult → Type 0) → List PollResult → Type 0
Some P [] = ⊥
Some P (res ∷ results) = P res ⊎ Some P results

-- The exit code by what it means.
pub data Exits (results : List PollResult) : ℕ → Type 0 where
  failed : Some IsBad results → Exits results 2
  warned : (Some IsBad results → ⊥) → Some IsWarn results → Exits results 1
  passed : (Some IsBad results → ⊥) → (Some IsWarn results → ⊥) → Exits results 0

no_more :
    (P : PollResult → Type 0) (res : PollResult) (results : List PollResult)
    → (P res → ⊥)
    → (Some P results → ⊥)
    → Some P (res ∷ results)
    → ⊥
no_more P res results a b (inl h) = a h
no_more P res results a b (inr h) = b h

-- The loop once it has seen a warning, or not.
data Ends (has_warn : Bool) (results : List PollResult) : ℕ → Type 0 where
  bad : Some IsBad results → Ends has_warn results 2
  alert :
      (Some IsBad results → ⊥) → (has_warn ≡ true) ⊎ Some IsWarn results → Ends has_warn results 1
  silent :
      (Some IsBad results → ⊥)
      → has_warn ≡ false
      → (Some IsWarn results → ⊥)
      → Ends has_warn results 0

later-bad :
    (has_warn seen : Bool) (res : PollResult) (results : List PollResult) (n : ℕ)
    → (IsBad res → ⊥)
    → (seen ≡ true → (has_warn ≡ true) ⊎ IsWarn res)
    → (seen ≡ false → (has_warn ≡ false) × (IsWarn res → ⊥))
    → Ends seen results n
    → Ends has_warn (res ∷ results) n
later-bad has_warn seen res results _ good when_seen unless (Ends.bad h) = Ends.bad (inr h)
later-bad has_warn seen res results _ good when_seen unless (Ends.alert h (inl w)) =
    Ends.alert (no_more IsBad res results good h)
      (elim (when_seen w) [ inl a ↦ inl a | inr b ↦ inr (inl b) ])
later-bad has_warn seen res results _ good when_seen unless (Ends.alert h (inr w)) =
    Ends.alert (no_more IsBad res results good h) (inr (inr w))
later-bad has_warn seen res results _ good when_seen unless (Ends.silent h q nw) =
    Ends.silent (no_more IsBad res results good h) (unless q).0
      (no_more IsWarn res results (unless q).1 nw)

not_bad :
    (res : PollResult) (state : Bytes)
    → state_of res ≡ some state
    → equal state (codes "fail") ≡ false
    → IsBad res
    → ⊥
not_bad res state e nf (inl h) = absurd (ground arith)
not_bad res state e nf (inr h) =
    let same =
      (equal_iff state (codes "fail")).1 (some-injective state (codes "fail") (sym e ∙ h)) in
    absurd (cc)

code_by-Ends :
    (has_warn : Bool) (res : PollResult) (results : List PollResult) (without with_warn : ℕ)
    (state : Option Bytes)
    → state_of res ≡ state
    → Ends has_warn results without
    → Ends true results with_warn
    → Ends has_warn (res ∷ results) (code_by state without with_warn)
unfolding code_by
code_by-Ends has_warn res results without with_warn none e q w = Ends.bad (inl (inl e))
code_by-Ends has_warn res results without with_warn (some state) e q w =
    elim (Bool-cases (equal state (codes "fail"))) [
      | inl f ↦ rw f (Ends.bad (inl (inr (e ∙ ap some ((equal_iff state (codes "fail")).0 f)))))
      | inr nf ↦ elim (Bool-cases (equal state (codes "warn"))) [
        | inl hw ↦
            rw (nf, hw)
              (later-bad has_warn true res results with_warn (not_bad res state e nf)
                (λ h. inr (e ∙ ap some ((equal_iff state (codes "warn")).0 hw))) (λ h. absurd (cc))
                w)
        | inr nw ↦
            rw (nf, nw)
              (later-bad has_warn has_warn res results without (not_bad res state e nf) (λ h. inl h)
                (λ h. (
                  h,
                  λ v.
                      let same =
                        (equal_iff state (codes "warn")).1
                          (some-injective state (codes "warn") (sym e ∙ v)) in
                      absurd (cc),
                ))
                q)
      ]
    ]

exit_code_from-Ends :
    (has_warn : Bool) (results : List PollResult)
    → Ends has_warn results (exit_code_from has_warn results)
unfolding exit_code_from
exit_code_from-Ends true [] = Ends.alert (λ h. h) (inl refl)
exit_code_from-Ends false [] = Ends.silent (λ h. h) refl (λ h. h)
exit_code_from-Ends has_warn (res ∷ results) =
    code_by-Ends has_warn res results _ _ (state_of res) refl (exit_code_from-Ends has_warn results)
      (exit_code_from-Ends true results)

-- The exit code is 2 exactly if some node is down or reports FAIL, else 1 exactly if some node
-- reports WARN, and else 0, whatever other state a node reports.
pub evaluate_exit_code-Exits :
    (results : List PollResult) → Exits results (evaluate_exit_code results)
unfolding evaluate_exit_code
evaluate_exit_code-Exits results =
    exits (exit_code_from false results) (exit_code_from-Ends false results)
  where
    exits : (n : ℕ) → Ends false results n → Exits results n
    exits _ (Ends.bad h) = Exits.failed h
    exits _ (Ends.alert h (inl e)) = absurd (cc)
    exits _ (Ends.alert h (inr w)) = Exits.warned h w
    exits _ (Ends.silent h e w) = Exits.passed h w
