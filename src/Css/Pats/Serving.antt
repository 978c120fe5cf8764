-- ===== src/Css/Pats/Serving.antt =====
-- As long as the authorization server answers with tokens, every call of `getPat` can be served.
use user_managed_access.Prelude.{
  [], map, sym, if◌then◌else◌, String, Option, List, ◌∷◌, ◌++◌, Bool, true, false, ◌≡◌, inl, inr,
  refl, subst, ap, ◌∙◌, Dict, ℕ, zero, suc, ◌+◌, arith, Bool-cases,
}
use user_managed_access.Css.Pats.{
  wake, is_returned, settle, Stored, Pats, Phase, calling, waiting, requesting, failed, returned,
  Reply, enter, Call, call, World, after_enter, after_settle, Steps, is_token, initial,
}
use user_managed_access.Css.Pats.Counts.{
  is_requesting, is_calling, bit, count, count-split, split_of_count, IsEntered, found, waits,
  requests, IsEntered-enter,
}
use user_managed_access.Css.Pats.Answered.{
  is_open, count-open, IsServing, IsServing-entered, IsServing-settled, IsServing-steps,
}

-- A run in which no call is added and no time passes: calls that may run do so, and requests that were
-- sent are answered with a token.
pub data Serves (w : World) : World → Type 0 where
  done : Serves w w
  runs :
      (v : World) (before after : List Call) (credentials : String)
      → Serves w v
      → v.calls ≡ before ++ (call credentials calling ∷ after)
      → Serves w (after_enter v before credentials after)
  answers :
      (v : World) (before after : List Call) (credentials : String) (reply : Option Reply)
      → Serves w v
      → v.calls ≡ before ++ (call credentials requesting ∷ after)
      → is_token reply ≡ true
      → Serves w (after_settle v before credentials after reply)

Serves-append : (w v u : World) → Serves w v → Serves v u → Serves w u
Serves-append w v _ run done = run
Serves-append w v _ run (runs x before after credentials rest split) =
    runs x before after credentials (Serves-append w v x run rest) split
Serves-append w v _ run (answers x before after credentials reply rest split token) =
    answers x before after credentials reply (Serves-append w v x run rest) split token

-- Whose calls there are.
abbrev pub callers : List Call → List String
callers = map (λ c. c.credentials)

callers-phase :
    (before after : List Call) (credentials : String) (p q : Phase)
    → callers (before ++ (call credentials p ∷ after))
      ≡ callers (before ++ (call credentials q ∷ after))
callers-phase [] after credentials p q = refl
callers-phase (c ∷ before) after credentials p q =
    ap (λ cs. c.credentials ∷ cs) (callers-phase before after credentials p q)

callers-wake : (cs : List Call) → callers (wake cs) ≡ callers cs
callers-wake [] = refl
callers-wake (c ∷ cs) = ap (λ ds. c.credentials ∷ ds) (callers-wake cs)

callers-wake_if : (b : Bool) (cs : List Call) → callers (if b then wake cs else cs) ≡ callers cs
callers-wake_if true cs = callers-wake cs
callers-wake_if false cs = refl

callers-Serves : (w v : World) → Serves w v → callers v.calls ≡ callers w.calls
unfolding after_enter after_settle
callers-Serves w _ done = refl
callers-Serves w _ (runs v before after credentials run split) =
    callers-phase before after credentials _ calling
    ∙ sym (ap callers split)
    ∙ callers-Serves w v run
callers-Serves w _ (answers v before after credentials reply run split token) =
    callers-wake_if (is_returned (settle v.now credentials reply v.pats).0)
      (before ++ (call credentials (settle v.now credentials reply v.pats).0 ∷ after))
    ∙ callers-phase before after credentials _ requesting
    ∙ sym (ap callers split)
    ∙ callers-Serves w v run

requesting_lem : (phase : Phase) → is_requesting phase ≡ true → phase ≡ requesting
requesting_lem requesting h = refl
requesting_lem calling h = cc
requesting_lem waiting h = cc
requesting_lem failed h = cc
requesting_lem (returned pat) h = cc

calling_lem : (phase : Phase) → is_calling phase ≡ true → phase ≡ calling
calling_lem calling h = refl
calling_lem requesting h = cc
calling_lem waiting h = cc
calling_lem failed h = cc
calling_lem (returned pat) h = cc

module _ (reply : Option Reply) (token : is_token reply ≡ true) where
  -- A run after which one call more has returned.
  abbrev Progress : World → ℕ → Type 0
  Progress w n = (v : World) × Serves w v × IsServing v × (count is_open v.calls ≡ n)

  Progress-asked :
      (w : World) (n : ℕ) (before after : List Call) (credentials : String)
      → w.calls ≡ before ++ (call credentials requesting ∷ after)
      → IsServing w
      → count is_open w.calls ≡ suc n
      → Progress w n
  Progress-asked w n before after credentials split serving h =
      let v = after_settle w before credentials after reply in
      let (next_serving, fewer) =
        IsServing-settled w before after credentials reply split token serving in
      (
        v,
        answers w before after credentials reply done split token,
        next_serving,
        omega (arith, h, fewer),
      )

  Progress-called :
      (w : World) (n : ℕ) (before after : List Call) (credentials : String)
      → w.calls ≡ before ++ (call credentials calling ∷ after)
      → IsServing w
      → w.pats.busy ≡ false
      → count is_open w.calls ≡ suc n
      → Progress w n
  unfolding after_enter
  Progress-called w n before after credentials split serving free h =
      go (enter w.now credentials w.pats).0 (enter w.now credentials w.pats).1
        (IsEntered-enter w.now credentials w.pats) refl
    where
      counted :
          (p : Phase → Bool) → count p w.calls ≡ bit (p calling) + (count p before + count p after)
      counted p = ap (count p) split ∙ count-split p before after (call credentials calling)

      reached :
          (phase : Phase) (pats : Pats)
          → enter w.now credentials w.pats ≡ (phase, pats)
          → Serves w (record w { pats = pats; calls = before ++ (call credentials phase ∷ after) })
      reached phase pats e =
          subst
            (λ r.
              Serves w (record w { pats = r.1; calls = before ++ (call credentials r.0 ∷ after) }))
            e (runs w before after credentials done split)

      go :
          (phase : Phase) (pats : Pats)
          → IsEntered w.now credentials w.pats phase pats
          → enter w.now credentials w.pats ≡ (phase, pats)
          → Progress w n
      go (returned pat) pats (found cached there valid) e =
          let v = record w {
            pats = pats;
            calls = before ++ (call credentials (returned pat) ∷ after);
          } in
          (
            v,
            reached (returned pat) pats e,
            IsServing-entered w before after credentials (returned pat) pats split serving
                (found cached there valid),
            omega (
              arith,
              h,
              counted is_open,
              count-split is_open before after (call credentials (returned pat)),
            ),
          )
      go waiting pats (waits taken) e = absurd (ground (arith, free, taken))
      go requesting pats (requests idle) e =
          let v = record w {
            pats = pats;
            calls = before ++ (call credentials requesting ∷ after);
          } in
          let serving_v =
            IsServing-entered w before after credentials requesting pats split serving
              (requests idle) in
          let unfinished : count is_open v.calls ≡ suc n = omega (
            arith,
            h,
            counted is_open,
            count-split is_open before after (call credentials requesting),
          ) in
          let (u, run, serving_u, fewer) =
            Progress-asked v n before after credentials refl serving_v unfinished in
          (u, Serves-append w v u (reached requesting pats e) run, serving_u, fewer)
      go calling pats x e = elim x [ ]
      go failed pats x e = elim x [ ]

  progress : (w : World) (n : ℕ) → IsServing w → count is_open w.calls ≡ suc n → Progress w n
  progress w n serving h = elim (Bool-cases w.pats.busy) [
    | inl taken ↦
        let asked : count is_requesting w.calls ≡ 1 = serving.asked ∙ ap bit taken in
        let (before, after, c, split, k) = split_of_count is_requesting w.calls 0 asked in
        let phase : c.phase ≡ requesting = requesting_lem c.phase k in
        Progress-asked w n before after c.credentials
          (split ∙ ap (λ p. before ++ (call c.credentials p ∷ after)) phase) serving h
    | inr free ↦
        let none_asked : count is_requesting w.calls ≡ 0 = serving.asked ∙ ap bit free in
        let calls : count is_calling w.calls ≡ suc n =
          omega (arith, h, count-open w.calls, none_asked, serving.idle free, serving.sound) in
        let (before, after, c, split, k) = split_of_count is_calling w.calls n calls in
        let phase : c.phase ≡ calling = calling_lem c.phase k in
        Progress-called w n before after c.credentials
          (split ∙ ap (λ p. before ++ (call c.credentials p ∷ after)) phase) serving free h
  ]

  finish : (n : ℕ) (w : World) → IsServing w → count is_open w.calls ≡ n → Progress w 0
  finish zero w serving h = (w, done, serving, h)
  finish (suc n) w serving h =
      let (v, run, serving_v, k) = progress w n serving h in
      let (u, more, serving_u, none_open) = finish n v serving_v k in
      (u, Serves-append w v u run more, serving_u, none_open)

-- At every moment of a run in which the authorization server has answered each request with a token, the
-- calls of `getPat` that are there can all be served: without another call and without more time, a run of
-- the calls that may run, with a token as the answer to each request, ends with all of them returned. So
-- no call is left to wait for an event that nobody emits.
pub all_returned :
    (reply : Option Reply) (now : ℕ) (storage : Dict Stored) (w : World)
    → is_token reply ≡ true
    → Steps is_token (initial now storage) w
    → (v : World) × Serves w v × (callers v.calls ≡ callers w.calls) × (count is_open v.calls ≡ 0)
all_returned reply now storage w token run =
    let serving =
      IsServing-steps (initial now storage) w run
        (record { asked = refl; idle = λ free. refl; sound = refl }) in
    let (v, more, serving_v, none_open) =
      finish reply token (count is_open w.calls) w serving refl in
    (v, more, callers-Serves w v more, none_open)
