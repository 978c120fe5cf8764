-- ===== src/Css/Pats.antt =====
-- packages/css/src/uma/UmaClient.ts: `getPat`, which several requests call at the same time. A call runs
-- until it awaits something; `Step` is such a run, or a new call, or time that passes. The event
-- `PAT_EVENT` wakes the calls that wait for it. `busy` says that `PAT_EVENT` is in `inProgress`. Times
-- are in milliseconds. What the authorization server answers is part of a step.
pub mod Counts
pub mod Blocking
pub mod Answered
pub mod Serving
use user_managed_access.Prelude.{
  String, Option, none, some, List, [], ◌∷◌, ◌++◌, map, Bool, true, false, ◌&&◌, is_some, ◌≡◌,
  if◌then◌else◌, get, put, Dict, ℕ, zero, suc, ◌+◌, ◌*◌, ltb, nat_beq, arith,
}
use Prim.Native.String

pub record Stored : Type 0 where
  pub pat : String
  pub expiration : ℕ

pub record Pats : Type 0 where
  pub storage : Dict Stored
  pub busy : Bool

-- Where a call is: about to run from the top, waiting for the event, waiting for the answer of the
-- authorization server, or done.
pub data Phase : Type 0 where
  calling waiting requesting failed : Phase
  returned : String → Phase

pub record TokenResponse : Type 0 where
  pub access_token : String
  pub token_type : String
  pub expires_in : ℕ

-- The body is `none` where it is no JSON.
pub record Reply : Type 0 where
  pub status : ℕ
  pub body : Option TokenResponse

unfoldable pub start_request : Pats → Phase × Pats
start_request s = if s.busy then (waiting, s) else (requesting, record s { busy = true })

-- The method up to its first `await`.
unfoldable pub enter : ℕ → String → Pats → Phase × Pats
unfolding start_request
enter now credentials s = elim (get s.storage credentials) [
  | none ↦ start_request s
  | some cached ↦ if ltb now cached.expiration then (returned cached.pat, s) else start_request s
]

abbrev pub pat_of : TokenResponse → String
pat_of r = String.◌++◌ r.token_type (String.◌++◌ " " r.access_token)

-- The rest of the method. There is no answer where the configuration or the token could not be
-- fetched.
unfoldable pub settle : ℕ → String → Option Reply → Pats → Phase × Pats
settle now credentials none s = (failed, s)
settle now credentials (some reply) s =
    if nat_beq reply.status 201
    then elim reply.body [
      | none ↦ (failed, s)
      | some r ↦ (
        returned (pat_of r),
        record {
          storage =
              put s.storage credentials
                (record { pat = pat_of r; expiration = now + r.expires_in * 1000 });
          busy = false;
        },
      )
    ]
    else (failed, s)

pub record Call : Type 0 where
  pub credentials : String
  pub phase : Phase

abbrev pub call : String → Phase → Call
call credentials phase = record { credentials = credentials; phase = phase }

pub record World : Type 0 where
  pub now : ℕ
  pub pats : Pats
  pub calls : List Call

abbrev pub wake_phase : Phase → Phase
wake_phase waiting = calling
wake_phase calling = calling
wake_phase requesting = requesting
wake_phase failed = failed
wake_phase (returned pat) = returned pat

-- `emit`: the calls that wait run again.
abbrev pub wake : List Call → List Call
wake = map (λ c. call c.credentials (wake_phase c.phase))

abbrev pub is_returned : Phase → Bool
is_returned (returned pat) = true
is_returned calling = false
is_returned waiting = false
is_returned requesting = false
is_returned failed = false

-- The world after the method ran up to its first `await`, and after it ran to its end.
unfoldable pub after_enter : World → List Call → String → List Call → World
after_enter w before credentials after =
    let (phase, pats) = enter w.now credentials w.pats in
    record w { pats = pats; calls = before ++ (call credentials phase ∷ after) }

unfoldable pub after_settle : World → List Call → String → List Call → Option Reply → World
after_settle w before credentials after reply =
    let (phase, pats) = settle w.now credentials reply w.pats in
    let calls = before ++ (call credentials phase ∷ after) in
    record w { pats = pats; calls = if is_returned phase then wake calls else calls }

-- The answers that a run is about.
module _ (expected : Option Reply → Bool) where
  pub data Step (w : World) : World → Type 0 where
    called :
        (credentials : String) → Step w (record w { calls = call credentials calling ∷ w.calls })
    passed : (d : ℕ) → Step w (record w { now = w.now + d })
    entered :
        (before after : List Call) (credentials : String)
        → w.calls ≡ before ++ (call credentials calling ∷ after)
        → Step w (after_enter w before credentials after)
    settled :
        (before after : List Call) (credentials : String) (reply : Option Reply)
        → w.calls ≡ before ++ (call credentials requesting ∷ after)
        → expected reply ≡ true
        → Step w (after_settle w before credentials after reply)

  pub data Steps (w : World) : World → Type 0 where
    here : Steps w w
    next : (v u : World) → Steps w v → Step v u → Steps w u

-- Any answer may come.
abbrev pub any_reply : Option Reply → Bool
any_reply reply = true

-- The answers with a token.
abbrev pub is_token : Option Reply → Bool
is_token none = false
is_token (some reply) = nat_beq reply.status 201 && is_some reply.body

abbrev pub initial : ℕ → Dict Stored → World
initial now storage = record {
  now = now;
  pats = record { storage = storage; busy = false };
  calls = [];
}
