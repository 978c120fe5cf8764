-- ===== src/Css/Pats/Answered.antt =====
-- What holds of the calls of `getPat` while the authorization server answers with tokens.
use user_managed_access.Prelude.{
  String, Option, none, some, List, [], ◌∷◌, ◌++◌, Bool, true, false, not, ◌≡◌, inl, inr, refl, sym,
  subst, ap, ◌∙◌, if◌then◌else◌, ℕ, suc, ◌+◌, ◌≤◌, arith, Option-cases,
}
use user_managed_access.Css.Pats.{
  Pats, Phase, calling, waiting, requesting, failed, returned, Reply, settle, Call, call, World,
  wake, wake_phase, is_returned, after_enter, after_settle, Step, called, passed, entered, settled,
  Steps, here, next, is_token,
}
use user_managed_access.Css.Pats.Counts.{
  bit_le, is_requesting, is_waiting, is_calling, bit, count, count-split, count-wake,
  count_waiting-wake, is_requesting-wake, IsEntered, found, waits, requests, IsEntered-enter,
  settle-cases,
}

abbrev pub is_failed : Phase → Bool
is_failed failed = true
is_failed calling = false
is_failed waiting = false
is_failed requesting = false
is_failed (returned pat) = false

abbrev pub is_open : Phase → Bool
is_open phase = not (is_returned phase)

is_failed-wake : (phase : Phase) → is_failed (wake_phase phase) ≡ is_failed phase
is_failed-wake calling = refl
is_failed-wake waiting = refl
is_failed-wake requesting = refl
is_failed-wake failed = refl
is_failed-wake (returned pat) = refl

is_open-wake : (phase : Phase) → is_open (wake_phase phase) ≡ is_open phase
is_open-wake calling = refl
is_open-wake waiting = refl
is_open-wake requesting = refl
is_open-wake failed = refl
is_open-wake (returned pat) = refl

is_open-bits :
    (phase : Phase)
    → bit (is_open phase)
      ≡ bit (is_calling phase)
        + (bit (is_waiting phase) + (bit (is_requesting phase) + bit (is_failed phase)))
is_open-bits calling = refl
is_open-bits waiting = refl
is_open-bits requesting = refl
is_open-bits failed = refl
is_open-bits (returned pat) = refl

pub count-open :
    (cs : List Call)
    → count is_open cs
      ≡ count is_calling cs + (count is_waiting cs + (count is_requesting cs + count is_failed cs))
count-open [] = omega arith
count-open (c ∷ cs) = omega (arith, is_open-bits c.phase, count-open cs)

-- A call has sent a request exactly where `inProgress` says so, and calls wait only for such a call.
pub record IsServing (w : World) : Type 0 where
  pub asked : count is_requesting w.calls ≡ bit w.pats.busy
  pub idle : w.pats.busy ≡ false → count is_waiting w.calls ≡ 0
  pub sound : count is_failed w.calls ≡ 0

pub IsServing-entered :
    (w : World) (before after : List Call) (credentials : String) (phase : Phase) (pats : Pats)
    → w.calls ≡ before ++ (call credentials calling ∷ after)
    → IsServing w
    → IsEntered w.now credentials w.pats phase pats
    → IsServing (record w { pats = pats; calls = before ++ (call credentials phase ∷ after) })
IsServing-entered w before after credentials phase pats split serving run = go phase pats run
  where
    counted :
        (p : Phase → Bool) → count p w.calls ≡ bit (p calling) + (count p before + count p after)
    counted p = ap (count p) split ∙ count-split p before after (call credentials calling)

    go :
        (phase : Phase) (pats : Pats)
        → IsEntered w.now credentials w.pats phase pats
        → IsServing (record w { pats = pats; calls = before ++ (call credentials phase ∷ after) })
    go (returned pat) pats (found cached there valid) = record {
      asked = omega (
        arith,
        serving.asked,
        counted is_requesting,
        count-split is_requesting before after (call credentials (returned pat)),
      );
      idle = λ free. omega (
        arith,
        serving.idle free,
        counted is_waiting,
        count-split is_waiting before after (call credentials (returned pat)),
      );
      sound = omega (
        arith,
        serving.sound,
        counted is_failed,
        count-split is_failed before after (call credentials (returned pat)),
      );
    }
    go waiting pats (waits taken) = record {
      asked = omega (
        arith,
        serving.asked,
        counted is_requesting,
        count-split is_requesting before after (call credentials waiting),
      );
      idle = λ free. absurd (ground (arith, free, taken));
      sound = omega (
        arith,
        serving.sound,
        counted is_failed,
        count-split is_failed before after (call credentials waiting),
      );
    }
    go requesting pats (requests free) = record {
      asked =
          let none_there = ap bit free in
          omega (
            arith,
            serving.asked,
            none_there,
            counted is_requesting,
            count-split is_requesting before after (call credentials requesting),
          );
      idle = λ taken. absurd (ground (arith, taken));
      sound = omega (
        arith,
        serving.sound,
        counted is_failed,
        count-split is_failed before after (call credentials requesting),
      );
    }
    go calling pats x = elim x [ ]
    go failed pats x = elim x [ ]

-- An answer with a token ends the call.
settle_token :
    (now : ℕ) (credentials : String) (reply : Option Reply) (s : Pats)
    → is_token reply ≡ true
    → (pat : String) × (pats : Pats) × (settle now credentials reply s ≡ (returned pat, pats))
      × (pats.busy ≡ false)
unfolding settle
settle_token now credentials none s h = absurd (cc)
settle_token now credentials (some reply) s h = elim (settle-cases now credentials (some reply) s) [
  | inr returns ↦ returns
  | inl fails ↦ elim (Option-cases reply.body) [
    | inl bad ↦ absurd (ground (arith, h, bad))
    | inr (r, fine) ↦ absurd (ground (arith, h, fails, fine))
  ]
]

-- The world after such an answer: the call has returned, and those that waited run again.
pub IsServing-settled :
    (w : World) (before after : List Call) (credentials : String) (reply : Option Reply)
    → w.calls ≡ before ++ (call credentials requesting ∷ after)
    → is_token reply ≡ true
    → IsServing w
    → IsServing (after_settle w before credentials after reply)
      × (count is_open w.calls
          ≡ suc (count is_open (after_settle w before credentials after reply).calls))
unfolding after_settle
IsServing-settled w before after credentials reply split token serving =
    let (pat, pats, returns, free) = settle_token w.now credentials reply w.pats token in
    let calls = before ++ (call credentials (returned pat) ∷ after) in
    let none_there = ap bit free in
    let most : bit w.pats.busy ≤ 1 = bit_le w.pats.busy in
    subst
      (λ r.
        IsServing (record w {
          pats = r.1;
          calls =
              let cs = before ++ (call credentials r.0 ∷ after) in
              if is_returned r.0 then wake cs else cs;
        })
        × (count is_open w.calls
            ≡ suc (
                count is_open (
                  let cs = before ++ (call credentials r.0 ∷ after) in
                  if is_returned r.0 then wake cs else cs))))
      (sym returns)
      (
        record {
          asked = omega (
            arith,
            serving.asked,
            none_there,
            most,
            counted is_requesting,
            count-wake is_requesting calls is_requesting-wake,
            count-split is_requesting before after (call credentials (returned pat)),
          );
          idle = λ free. count_waiting-wake calls;
          sound = omega (
            arith,
            serving.sound,
            counted is_failed,
            count-wake is_failed calls is_failed-wake,
            count-split is_failed before after (call credentials (returned pat)),
          );
        },
        omega (
          arith,
          counted is_open,
          count-wake is_open calls is_open-wake,
          count-split is_open before after (call credentials (returned pat)),
        ),
      )
  where
    counted :
        (p : Phase → Bool) → count p w.calls ≡ bit (p requesting) + (count p before + count p after)
    counted p = ap (count p) split ∙ count-split p before after (call credentials requesting)

IsServing-step : (w v : World) → Step is_token w v → IsServing w → IsServing v
unfolding after_enter
IsServing-step w v (called credentials) serving = record {
  asked = omega (arith, serving.asked);
  idle = λ free. omega (arith, serving.idle free);
  sound = omega (arith, serving.sound);
}
IsServing-step w v (passed d) serving = record {
  asked = serving.asked;
  idle = serving.idle;
  sound = serving.sound;
}
IsServing-step w v (entered before after credentials split) serving =
    IsServing-entered w before after credentials _ _ split serving
      (IsEntered-enter w.now credentials w.pats)
IsServing-step w v (settled before after credentials reply split token) serving =
    (IsServing-settled w before after credentials reply split token serving).0

pub IsServing-steps : (w v : World) → Steps is_token w v → IsServing w → IsServing v
IsServing-steps w _ here serving = serving
IsServing-steps w _ (next u v run step) serving =
    IsServing-step u v step (IsServing-steps w u run serving)
