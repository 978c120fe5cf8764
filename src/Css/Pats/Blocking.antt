-- ===== src/Css/Pats/Blocking.antt =====
-- One request for a token at a time, and what a request that fails does to all later calls.
use user_managed_access.Prelude.{
  String, Option, none, List, ◌∷◌, ◌++◌, Bool, true, false, ◌≡◌, inl, inr, refl, sym, subst, ap,
  ◌∙◌, if◌then◌else◌, get, Dict, ℕ, ◌+◌, ◌≤◌, arith,
}
use user_managed_access.Css.Pats.{
  Stored, Pats, Phase, calling, waiting, requesting, failed, returned, Reply, start_request, enter,
  settle, Call, call, World, wake, is_returned, after_enter, after_settle, Step, called, passed,
  entered, settled, Steps, here, next, any_reply, is_token, initial,
}
use user_managed_access.Css.Pats.Counts.{
  is_requesting, bit, bit_le, count, count-split, count-wake, is_requesting-wake, IsEntered, found,
  waits, requests, IsEntered-enter, settle-cases, settle-refused,
}

-- At most one call waits for an answer, and then `inProgress` says so.
abbrev pub IsExclusive : World → Type 0
IsExclusive w = count is_requesting w.calls ≤ bit w.pats.busy

exclusive_entered :
    (w : World) (before after : List Call) (credentials : String) (phase : Phase) (pats : Pats)
    → w.calls ≡ before ++ (call credentials calling ∷ after)
    → IsExclusive w
    → IsEntered w.now credentials w.pats phase pats
    → count is_requesting (before ++ (call credentials phase ∷ after)) ≤ bit pats.busy
exclusive_entered w before after credentials phase pats split exclusive run =
    let counted =
      ap (count is_requesting) split
      ∙ count-split is_requesting before after (call credentials calling) in
    go phase pats run (omega (arith, counted, exclusive))
  where
    go :
        (phase : Phase) (pats : Pats)
        → IsEntered w.now credentials w.pats phase pats
        → count is_requesting before + count is_requesting after ≤ bit w.pats.busy
        → count is_requesting (before ++ (call credentials phase ∷ after)) ≤ bit pats.busy
    go (returned pat) pats (found cached there valid) h =
        omega (arith, h, count-split is_requesting before after (call credentials (returned pat)))
    go waiting pats (waits busy) h =
        omega (arith, h, count-split is_requesting before after (call credentials waiting))
    go requesting pats (requests free) h =
        let none_there = ap bit free in
        omega (
          arith,
          h,
          none_there,
          count-split is_requesting before after (call credentials requesting),
        )
    go calling pats x h = elim x [ ]
    go failed pats x h = elim x [ ]

IsExclusive-step : (w v : World) → Step any_reply w v → IsExclusive w → IsExclusive v
unfolding after_enter after_settle
IsExclusive-step w v (called credentials) h = omega (arith, h)
IsExclusive-step w v (passed d) h = h
IsExclusive-step w v (entered before after credentials split) h =
    exclusive_entered w before after credentials _ _ split h
      (IsEntered-enter w.now credentials w.pats)
IsExclusive-step w v (settled before after credentials reply split expected) h =
    let counted =
      ap (count is_requesting) split
      ∙ count-split is_requesting before after (call credentials requesting) in
    elim (settle-cases w.now credentials reply w.pats) [
      | inl fails ↦
          subst
            (λ r.
              count is_requesting (
                let calls = before ++ (call credentials r.0 ∷ after) in
                if is_returned r.0 then wake calls else calls)
              ≤ bit r.1.busy)
            (sym fails)
            (omega
              (arith, counted, h, count-split is_requesting before after (call credentials failed)))
      | inr (pat, pats, returns, free) ↦
          let none_there = ap bit free in
          let most : bit w.pats.busy ≤ 1 = bit_le w.pats.busy in
          subst
            (λ r.
              count is_requesting (
                let calls = before ++ (call credentials r.0 ∷ after) in
                if is_returned r.0 then wake calls else calls)
              ≤ bit r.1.busy)
            (sym returns)
            (omega (
              arith,
              counted,
              h,
              none_there,
              most,
              count-wake is_requesting (before ++ (call credentials (returned pat) ∷ after))
                  is_requesting-wake,
              count-split is_requesting before after (call credentials (returned pat)),
            ))
    ]

-- At every moment of every run, at most one call of `getPat` has sent a request for a token that is not
-- answered, and `inProgress` has the event then.
pub one_request :
    (now : ℕ) (storage : Dict Stored) (w : World)
    → Steps any_reply (initial now storage) w
    → count is_requesting w.calls ≤ bit w.pats.busy
one_request now storage _ here = omega arith
one_request now storage _ (next v u run step) =
    IsExclusive-step v u step (one_request now storage v run)

-- A request has failed, and no other one is under way.
abbrev pub IsBlocked : Pats → World → Type 0
IsBlocked pats w = (w.pats ≡ pats) × (count is_requesting w.calls ≡ 0)

IsBlocked-entered :
    (w : World) (pats : Pats) (before after : List Call) (credentials : String) (phase : Phase)
    (left : Pats)
    → pats.busy ≡ true
    → w.calls ≡ before ++ (call credentials calling ∷ after)
    → IsBlocked pats w
    → IsEntered w.now credentials w.pats phase left
    → IsBlocked pats (record w { pats = left; calls = before ++ (call credentials phase ∷ after) })
IsBlocked-entered w pats before after credentials phase left busy split (same, nobody) run =
    let counted =
      ap (count is_requesting) split
      ∙ count-split is_requesting before after (call credentials calling) in
    go phase left run (omega (arith, counted, nobody))
  where
    go :
        (phase : Phase) (left : Pats)
        → IsEntered w.now credentials w.pats phase left
        → count is_requesting before + count is_requesting after ≡ 0
        → IsBlocked pats
            (record w { pats = left; calls = before ++ (call credentials phase ∷ after) })
    go (returned pat) left (found cached there valid) h = (
      same,
      omega (arith, h, count-split is_requesting before after (call credentials (returned pat))),
    )
    go waiting left (waits taken) h =
        (same, omega (arith, h, count-split is_requesting before after (call credentials waiting)))
    go requesting left (requests free) h =
        absurd (ground (arith, free, ap (λ p. p.busy) same, busy))
    go calling left x h = elim x [ ]
    go failed left x h = elim x [ ]

IsBlocked-step :
    (pats : Pats) (w v : World)
    → pats.busy ≡ true
    → Step any_reply w v
    → IsBlocked pats w
    → IsBlocked pats v
unfolding after_enter
IsBlocked-step pats w v busy (called credentials) (same, h) = (same, omega (arith, h))
IsBlocked-step pats w v busy (passed d) h = h
IsBlocked-step pats w v busy (entered before after credentials split) h =
    IsBlocked-entered w pats before after credentials _ _ busy split h
      (IsEntered-enter w.now credentials w.pats)
IsBlocked-step pats w v busy (settled before after credentials reply split expected) (same, h) =
    let counted =
      ap (count is_requesting) split
      ∙ count-split is_requesting before after (call credentials requesting) in
    absurd (omega (arith, counted, h))

IsBlocked-steps :
    (pats : Pats) (w v : World)
    → pats.busy ≡ true
    → Steps any_reply w v
    → IsBlocked pats w
    → IsBlocked pats v
IsBlocked-steps pats w _ busy here h = h
IsBlocked-steps pats w _ busy (next u v run step) h =
    IsBlocked-step pats u v busy step (IsBlocked-steps pats w u busy run h)

true_of_bit : (b : Bool) → 1 ≤ bit b → b ≡ true
true_of_bit true h = refl
true_of_bit false h = absurd (omega (arith, h))

enter_busy :
    (now : ℕ) (credentials : String) (s : Pats)
    → get s.storage credentials ≡ none
    → s.busy ≡ true
    → enter now credentials s ≡ (waiting, s)
unfolding enter start_request
enter_busy now credentials s missing busy =
    let run : enter now credentials s ≡ start_request s = rw (missing, enter) refl in
    run ∙ ap (λ b. if b then (waiting, s) else (requesting, record s { busy = true })) busy

-- A call has sent a request for a token, and what comes is no token: no answer, another status than 201,
-- or no JSON. From then on, whatever happens, what is stored stays as it is, no call sends a request any
-- more, and a call with credentials of which no token is stored comes to wait, for an event that nobody is
-- left to emit: the failed call ended without taking the event out of `inProgress`.
pub failure_blocks :
    (now : ℕ) (storage : Dict Stored) (w v : World) (before after : List Call)
    (credentials other : String) (reply : Option Reply)
    → Steps any_reply (initial now storage) w
    → w.calls ≡ before ++ (call credentials requesting ∷ after)
    → is_token reply ≡ false
    → Steps any_reply (after_settle w before credentials after reply) v
    → get w.pats.storage other ≡ none
    → (v.pats ≡ w.pats)
      × (count is_requesting v.calls ≡ 0)
      × (enter v.now other v.pats ≡ (waiting, v.pats))
unfolding after_settle
failure_blocks now storage w v before after credentials other reply reached split refused run
      missing =
    let fails : settle w.now credentials reply w.pats ≡ (failed, w.pats) =
      settle-refused w.now credentials reply w.pats refused in
    let counted =
      ap (count is_requesting) split
      ∙ count-split is_requesting before after (call credentials requesting) in
    let exclusive = one_request now storage w reached in
    let most : bit w.pats.busy ≤ 1 = bit_le w.pats.busy in
    let busy : w.pats.busy ≡ true = true_of_bit w.pats.busy (omega (arith, counted, exclusive)) in
    let start : IsBlocked w.pats (after_settle w before credentials after reply) =
      subst
        (λ r. IsBlocked w.pats (record w {
          pats = r.1;
          calls =
              let calls = before ++ (call credentials r.0 ∷ after) in
              if is_returned r.0 then wake calls else calls;
        }))
        (sym fails)
        (
          refl,
          omega (
            arith,
            counted,
            exclusive,
            most,
            count-split is_requesting before after (call credentials failed),
          ),
        ) in
    let (same, nobody) =
      IsBlocked-steps w.pats (after_settle w before credentials after reply) v busy run start in
    (
      same,
      nobody,
      subst (λ p. enter v.now other p ≡ (waiting, p)) (sym same)
          (enter_busy v.now other w.pats missing busy),
    )
