-- ===== src/Css/Pats/Counts.antt =====
-- How many calls of `getPat` are at each point.
use user_managed_access.Prelude.{
  String, Option, none, some, List, [], ◌∷◌, ◌++◌, Bool, true, false, ◌≡◌, ◌⊎◌, inl, inr, refl, sym,
  subst, ap, if◌then◌else◌, get, put, ℕ, suc, ◌+◌, ◌*◌, ◌≤◌, ltb, nat_beq, arith, Bool-cases,
  Option-cases,
}
use user_managed_access.Css.Pats.{
  Stored, Pats, Phase, calling, waiting, requesting, failed, returned, Reply, start_request, enter,
  settle, Call, wake_phase, wake, pat_of, is_token,
}

abbrev pub is_waiting : Phase → Bool
is_waiting waiting = true
is_waiting calling = false
is_waiting requesting = false
is_waiting failed = false
is_waiting (returned pat) = false

abbrev pub is_requesting : Phase → Bool
is_requesting requesting = true
is_requesting calling = false
is_requesting waiting = false
is_requesting failed = false
is_requesting (returned pat) = false

abbrev pub is_calling : Phase → Bool
is_calling calling = true
is_calling waiting = false
is_calling requesting = false
is_calling failed = false
is_calling (returned pat) = false

abbrev pub bit : Bool → ℕ
bit true = 1
bit false = 0

pub bit_le : (b : Bool) → bit b ≤ 1
bit_le true = omega arith
bit_le false = omega arith

abbrev pub count : (Phase → Bool) → List Call → ℕ
count p [] = 0
count p (c ∷ cs) = bit (p c.phase) + count p cs

pub count-split :
    (p : Phase → Bool) (before after : List Call) (c : Call)
    → count p (before ++ (c ∷ after)) ≡ bit (p c.phase) + (count p before + count p after)
count-split p [] after c = omega arith
count-split p (b ∷ before) after c = omega (arith, count-split p before after c)

pub count-wake :
    (p : Phase → Bool) (cs : List Call)
    → ((phase : Phase) → p (wake_phase phase) ≡ p phase)
    → count p (wake cs) ≡ count p cs
count-wake p [] h = refl
count-wake p (c ∷ cs) h = rw (h c.phase, count-wake p cs h) refl

not_waiting-wake : (phase : Phase) → is_waiting (wake_phase phase) ≡ false
not_waiting-wake calling = refl
not_waiting-wake waiting = refl
not_waiting-wake requesting = refl
not_waiting-wake failed = refl
not_waiting-wake (returned pat) = refl

pub count_waiting-wake : (cs : List Call) → count is_waiting (wake cs) ≡ 0
count_waiting-wake [] = refl
count_waiting-wake (c ∷ cs) = rw (not_waiting-wake c.phase, count_waiting-wake cs) refl

pub is_requesting-wake : (phase : Phase) → is_requesting (wake_phase phase) ≡ is_requesting phase
is_requesting-wake calling = refl
is_requesting-wake waiting = refl
is_requesting-wake requesting = refl
is_requesting-wake failed = refl
is_requesting-wake (returned pat) = refl

-- A call that is counted stands somewhere.
pub split_of_count :
    (p : Phase → Bool) (cs : List Call) (n : ℕ)
    → count p cs ≡ suc n
    → (before after : List Call) × (c : Call) × (cs ≡ before ++ (c ∷ after)) × (p c.phase ≡ true)
split_of_count p [] n h = absurd (omega (arith, h))
split_of_count p (c ∷ cs) n h = elim (Bool-cases (p c.phase)) [
  | inl this ↦ ([], cs, c, refl, this)
  | inr other ↦
      let later : count p cs ≡ suc n =
        let e = ap (λ b. bit b + count p cs) other in omega (arith, e, h) in
      let (before, after, d, e, k) = split_of_count p cs n later in
      (c ∷ before, after, d, ap (λ ds. c ∷ ds) e, k)
]

-- What a run of the method up to its first `await` does.
pub data IsEntered (now : ℕ) (credentials : String) (s : Pats) : Phase → Pats → Type 0 where
  found :
      (cached : Stored)
      → get s.storage credentials ≡ some cached
      → ltb now cached.expiration ≡ true
      → IsEntered now credentials s (returned cached.pat) s
  waits : s.busy ≡ true → IsEntered now credentials s waiting s
  requests : s.busy ≡ false → IsEntered now credentials s requesting (record s { busy = true })

IsEntered-start :
    (now : ℕ) (credentials : String) (s : Pats)
    → IsEntered now credentials s (start_request s).0 (start_request s).1
unfolding start_request
IsEntered-start now credentials s = elim (Bool-cases s.busy) [
  | inl busy ↦
      let run : start_request s ≡ (waiting, s) =
        ap (λ b. if b then (waiting, s) else (requesting, record s { busy = true })) busy in
      subst (λ r. IsEntered now credentials s r.0 r.1) (sym run) (waits busy)
  | inr free ↦
      let run : start_request s ≡ (requesting, record s { busy = true }) =
        ap (λ b. if b then (waiting, s) else (requesting, record s { busy = true })) free in
      subst (λ r. IsEntered now credentials s r.0 r.1) (sym run) (requests free)
]

pub IsEntered-enter :
    (now : ℕ) (credentials : String) (s : Pats)
    → IsEntered now credentials s (enter now credentials s).0 (enter now credentials s).1
unfolding enter
IsEntered-enter now credentials s = elim (Option-cases (get s.storage credentials)) [
  | inl missing ↦ rw (missing, enter) (IsEntered-start now credentials s)
  | inr (cached, there) ↦ elim (Bool-cases (ltb now cached.expiration)) [
    | inl valid ↦ rw (there, valid, enter) (found cached there valid)
    | inr expired ↦ rw (there, expired, enter) (IsEntered-start now credentials s)
  ]
]

-- An answer without a token ends the method with an error, before `inProgress` is touched.
pub settle-refused :
    (now : ℕ) (credentials : String) (reply : Option Reply) (s : Pats)
    → is_token reply ≡ false
    → settle now credentials reply s ≡ (failed, s)
unfolding settle
settle-refused now credentials none s h = refl
settle-refused now credentials (some reply) s h = elim (Bool-cases (nat_beq reply.status 201)) [
  | inr refused ↦ rw (refused, settle) refl
  | inl created ↦ elim (Option-cases reply.body) [
    | inl bad ↦ rw (created, bad, settle) refl
    | inr (r, fine) ↦ absurd (ground (arith, h, created, fine))
  ]
]

-- The end of the method: it fails and changes nothing, or it returns and frees the way.
pub settle-cases :
    (now : ℕ) (credentials : String) (reply : Option Reply) (s : Pats)
    → (settle now credentials reply s ≡ (failed, s))
      ⊎ ((pat : String) × (settled : Pats) × (settle now credentials reply s
            ≡ (returned pat, settled))
          × (settled.busy ≡ false))
unfolding settle
settle-cases now credentials none s = inl refl
settle-cases now credentials (some reply) s = elim (Bool-cases (nat_beq reply.status 201)) [
  | inr refused ↦ inl (rw (refused, settle) refl)
  | inl created ↦ elim (Option-cases reply.body) [
    | inl bad ↦ inl (rw (created, bad, settle) refl)
    | inr (r, fine) ↦ inr (
      pat_of r,
      record {
        storage =
            put s.storage credentials
              (record { pat = pat_of r; expiration = now + r.expires_in * 1000 });
        busy = false;
      },
      rw (created, fine, settle) refl,
      refl,
    )
  ]
]
