-- ===== src/Command/Exits.antt =====
-- How the daemons of cmd/xport/main.go exit in front of waiting for a signal, and how their status server
-- starts.
use go_xport.Common.{
  ◌≡◌, ◌≢◌, ◌↔◌, refl, Bool, true, false, List, [], ◌∷◌, Option, none, some, Bytes, inl, inr, arith,
  ◌⊎◌, ◌||◌, All, equal, if◌then◌else◌,
}
use go_xport.Command.{
  Outcome, running, failed, Failure, exit_code, missing_flags, no_status_server, status_not_started,
}
use go_xport.Command.Status.{StatusServer, after_status, started_status, start_status}
use go_xport.Monitor.Server.{Host, Server, StartError, new_server, start}
use go_xport.Monitor.Server.Guard.{Listens, new_server-Listens}
use go_xport.Sender.Items.{||-false}

-- Running, and then as told; or not started, with the exit code 2 if a required flag is missing,
-- and 1 otherwise.
abbrev pub Told : {A : Type 0} → (A → Type 0) → Bool → Outcome A → Type 0
Told P misses (running a) = (misses ≡ false) × P a
Told P misses (failed why) = exit_code why ≡ (if misses then 2 else 1)

-- None of the texts is empty.
abbrev pub Given : List Bytes → Type 0
Given texts = All (λ text. text ≢ []) texts

-- The same by what the required flags hold.
abbrev pub Exits : {A : Type 0} → (A → Type 0) → List Bytes → Outcome A → Type 0
Exits P required (running a) = Given required × P a
Exits P required (failed why) =
    ((exit_code why ≡ 2) × ¬ Given required) ⊎ ((exit_code why ≡ 1) × Given required)

pub Told-Exits :
    {A : Type 0} (P : A → Type 0) (misses : Bool) (required : List Bytes)
    → (misses ≡ false) ↔ Given required
    → (o : Outcome A) → Told P misses o
    → Exits P required o
Told-Exits P misses required iff (running a) h = (iff.0 h.0, h.1)
Told-Exits P true required iff (failed why) h =
    inl (h, λ all. let e : true ≡ false = iff.1 all in absurd (cc))
Told-Exits P false required iff (failed why) h = inr (h, iff.0 refl)

pub not_empty_iff : (text : Bytes) → (equal text [] ≡ false) ↔ (text ≢ [])
unfolding equal
not_empty_iff [] = ground arith
not_empty_iff (c ∷ cs) = (λ h e. absurd (cc), λ h. refl)

-- A test for an empty text, after the tests before it.
abbrev any_empty : Bool → List Bytes → Bool
any_empty b [] = b
any_empty b (text ∷ texts) = any_empty (b || equal text []) texts

any_empty_iff :
    (b : Bool) (texts : List Bytes) → (any_empty b texts ≡ false) ↔ ((b ≡ false) × Given texts)
any_empty_iff b [] = (λ h. (h, tt), λ h. h.0)
any_empty_iff b (text ∷ texts) =
    let rest = any_empty_iff (b || equal text []) texts in
    (
      λ h.
          let (here, given) = rest.0 h in
          let (before, full) = ||-false b (equal text []) here in
          (before, ((not_empty_iff text).0 full, given)),
      λ h. rest.1 (rw (h.0, (not_empty_iff text).1 h.1.0) refl, h.1.1),
    )

pub any_empty-Given : (texts : List Bytes) → (any_empty false texts ≡ false) ↔ Given texts
any_empty-Given texts =
    (λ h. ((any_empty_iff false texts).0 h).1, λ h. (any_empty_iff false texts).1 (refl, h))

pub missing_flags-code : exit_code missing_flags ≡ 2
unfolding exit_code
missing_flags-code = refl

-- A failure that is not the missing flag's.
pub late :
    {A : Type 0} (P : A → Type 0) (misses : Bool) (why : Failure)
    → misses ≡ false
    → exit_code why ≡ 1
    → Told P misses (failed why)
late P misses why given one = rw (given, one) refl

pub start_status-Told :
    (host : Host) (status_addr cert key status_peer_fp : Bytes) (misses : Bool)
    → misses ≡ false
    → Told
        (λ (s : StatusServer). Listens host status_addr status_peer_fp s.listener)
        misses
        (start_status host status_addr cert key status_peer_fp)
unfolding start_status exit_code
start_status-Told host status_addr cert key status_peer_fp misses given =
    go (new_server host status_addr cert key status_peer_fp) refl
  where
    Status : StatusServer → Type 0
    Status s = Listens host status_addr status_peer_fp s.listener

    started :
        (server : Server) (o : Option StartError × Server)
        → new_server host status_addr cert key status_peer_fp ≡ some server
        → start host server ≡ o
        → Told Status misses (after_status o)
    started server (none, t) made starts =
        (given, new_server-Listens host status_addr status_peer_fp cert key server t made starts)
    started server (some e, t) made starts = late Status misses status_not_started given refl

    go :
        (o : Option Server)
        → new_server host status_addr cert key status_peer_fp ≡ o
        → Told Status misses (started_status host o)
    go none e = late Status misses no_status_server given refl
    go (some server) e = started server (start host server) e refl
