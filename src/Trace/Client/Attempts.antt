-- ===== src/Trace/Client/Attempts.antt =====
-- lib/trace/client.ts: the retries, against a transport whose answers are written down beforehand.
use wtr.Common.{
  any, err, some, none, leb-le, nat_eq, ◌⊎◌, inl, inr, if_yes, if_no, Result, false, true, ℕ, zero,
  suc, ◌+◌, ◌≤◌, ◌<◌, String, List, [], ◌∷◌, ◌++◌, Option, Failure, ok, error, All, length, push,
  append_assoc, append-nil, ◌≡◌, refl, sym, ap, ◌∙◌, arith,
}
use wtr.Common.Value.{Value, end, obj}
use wtr.Trace.Client.{
  ClientConfig, HttpRequest, Answer, answered, is_accepted, is_retryable, http_error, broken, Turn,
  returned, thrown, last_error, turn, attempts, request, pause,
}

-- The client with a transport that writes down every request that it is sent.
abbrev pub recording : {W : Type 0} → ClientConfig W → ClientConfig (W × List HttpRequest)
recording config = record {
  platform = config.platform;
  provider = config.provider;
  fetch = λ rq (w, log). ((config.fetch rq w).0, ((config.fetch rq w).1, push log rq));
  sleep = λ ms (w, log). (config.sleep ms w, log);
  jitter = λ backoff (w, log). ((config.jitter backoff w).0, ((config.jitter backoff w).1, log));
  max_attempts = config.max_attempts;
  base_delay_ms = config.base_delay_ms;
}

abbrev pub repeat {ℓ} : {A : Type ℓ} → ℕ → A → List A
repeat zero a = []
repeat (suc n) a = a ∷ repeat n a

-- One log continues another by some copies of a request, at most `limit` and, if that is not 0, at
-- least one.
pub record Resent (limit : ℕ) (rq : HttpRequest) (old new : List HttpRequest) : Type 0 where
  pub times : ℕ
  pub at_most : times ≤ limit
  pub at_least : 1 ≤ limit → 1 ≤ times
  pub log : new ≡ old ++ repeat times rq

resend :
    (limit : ℕ) (rq : HttpRequest) (old middle new : List HttpRequest)
    → middle ≡ push old rq
    → Resent limit rq middle new
    → Resent (suc limit) rq old new
resend limit rq old middle new sent more = record {
  times = suc more.times;
  at_most = let h = more.at_most in omega arith;
  at_least = λ _. omega arith;
  log =
      more.log
      ∙ ap (λ l. l ++ repeat more.times rq) sent
      ∙ append_assoc old (rq ∷ []) (repeat more.times rq);
}

sent_once :
    (limit : ℕ) (rq : HttpRequest) (old : List HttpRequest)
    → Resent (suc limit) rq old (push old rq)
sent_once limit rq old = record {
  times = 1;
  at_most = omega arith;
  at_least = λ _. omega arith;
  log = refl;
}

data TurnIs (t : Turn) : Type 0 where
  is_returned : (v : Value) → t ≡ returned v → TurnIs t
  is_thrown : (e : Failure) → t ≡ thrown e → TurnIs t
  is_last : (e : Failure) → t ≡ last_error e → TurnIs t

turn-cases : (t : Turn) → TurnIs t
turn-cases (returned v) = is_returned v refl
turn-cases (thrown e) = is_thrown e refl
turn-cases (last_error e) = is_last e refl

-- A pause sends nothing.
pause-log :
    {W : Type 0} (config : ClientConfig W) (left attempt : ℕ) (s : W × List HttpRequest)
    → (pause (recording config) left attempt s).1 ≡ s.1
pause-log config zero attempt s = refl
pause-log config (suc left) attempt s = refl

attempts-Resent :
    {W : Type 0} (config : ClientConfig W) (accept : List ℕ) (rq : HttpRequest) (left attempt : ℕ)
    (failure : Failure) (s : W × List HttpRequest)
    → Resent left rq s.1 (attempts (recording config) accept rq left attempt failure s).1.1
unfolding attempts
attempts-Resent config accept rq zero attempt failure s = record {
  times = 0;
  at_most = omega arith;
  at_least = λ h. h;
  log = sym (append-nil s.1);
}
attempts-Resent config accept rq (suc left) attempt failure s =
    let sent = (recording config).fetch rq s in
    elim (turn-cases (turn accept sent.0)) [
      | is_returned v h ↦ rw (h, attempts) (sent_once left rq s.1)
      | is_thrown e h ↦ rw (h, attempts) (sent_once left rq s.1)
      | is_last e h ↦
          rw (h, attempts)
            (resend left rq s.1 _ _ (pause-log config left attempt sent.1) (
              attempts-Resent config accept rq left (attempt + 1) e
                (pause (recording config) left attempt sent.1)))
    ]

-- The transport that gives one answer after the other, and is broken when there is none left.
abbrev pub next_answer : List Answer → Answer × List Answer
next_answer [] = (broken (error "no answer"), [])
next_answer (answer ∷ rest) = (answer, rest)

abbrev pub scripted : {W : Type 0} → ClientConfig W → ClientConfig (List Answer)
scripted config = record {
  platform = config.platform;
  provider = config.provider;
  fetch = λ _ script. next_answer script;
  sleep = λ _ script. script;
  jitter = λ _ script. (0, script);
  max_attempts = config.max_attempts;
  base_delay_ms = config.base_delay_ms;
}

-- A status of a success, or one whose answer the caller reads itself.
abbrev pub IsAccepted : List ℕ → ℕ → Type 0
IsAccepted accept status = ((200 ≤ status) × (status ≤ 299)) ⊎ (any (nat_eq status) accept ≡ true)

-- An attempt that failed in a way that may pass.
pub data IsTransient (accept : List ℕ) : Answer → Type 0 where
  unreachable : (e : Failure) → IsTransient accept (broken e)
  limited :
      (body : Result (Option Value))
      → any (nat_eq 429) accept ≡ false
      → IsTransient accept (answered 429 body)
  server_error :
      (status : ℕ) (body : Result (Option Value))
      → 500 ≤ status
      → any (nat_eq status) accept ≡ false
      → IsTransient accept (answered status body)
  unreadable :
      (status : ℕ) (e : Failure)
      → IsAccepted accept status
      → IsTransient accept (answered status (err e))

-- An answer that brings a value; an empty body stands for an empty object.
pub data Delivers (accept : List ℕ) : Answer → Value → Type 0 where
  with_value :
      (status : ℕ) (v : Value)
      → IsAccepted accept status
      → Delivers accept (answered status (ok (some v))) v
  empty :
      (status : ℕ)
      → IsAccepted accept status
      → Delivers accept (answered status (ok none)) (obj end)

accepts :
    (accept : List ℕ) (status : ℕ) → IsAccepted accept status → is_accepted accept status ≡ true
accepts accept status (inl (low, high)) =
    ground (arith, leb-le 200 status low, leb-le status 299 high)
accepts accept status (inr listed) = ground (arith, listed)

refuses :
    (accept : List ℕ) (status : ℕ)
    → 300 ≤ status
    → any (nat_eq status) accept ≡ false
    → is_accepted accept status ≡ false
refuses accept status high other = ground (arith, other)

IsTransient-turn :
    (accept : List ℕ) (answer : Answer)
    → IsTransient accept answer
    → (e : Failure) × (turn accept answer ≡ last_error e)
unfolding turn
IsTransient-turn accept _ (unreachable e) = (e, refl)
IsTransient-turn accept _ (limited body other) =
    (http_error 429, if_no _ _ (refuses accept 429 (omega arith) other))
IsTransient-turn accept _ (server_error status body high other) = (
  http_error status,
  if_no _ _ (refuses accept status (omega arith) other)
      ∙ if_yes {b = is_retryable status} _ _ (ground arith),
)
IsTransient-turn accept _ (unreadable status e good) = (e, if_yes _ _ (accepts accept status good))

Delivers-turn :
    (accept : List ℕ) (answer : Answer) (v : Value)
    → Delivers accept answer v
    → turn accept answer ≡ returned v
unfolding turn
Delivers-turn accept _ v (with_value status _ good) = if_yes _ _ (accepts accept status good)
Delivers-turn accept _ v (empty status good) = if_yes _ _ (accepts accept status good)

module _ {W : Type 0} (config : ClientConfig W) (accept : List ℕ) (rq : HttpRequest) where
  attempts-returns :
      (bad : List Answer) (good : Answer) (rest : List Answer) (v : Value) (left attempt : ℕ)
      (failure : Failure)
      → All (IsTransient accept) bad
      → Delivers accept good v
      → length bad < left
      → attempts (scripted config) accept rq left attempt failure (bad ++ good ∷ rest)
        ≡ (ok v, rest)
  unfolding attempts turn
  attempts-returns bad good rest v zero attempt failure hs h lt = absurd (omega arith)
  attempts-returns [] good rest v (suc left) attempt failure hs h lt =
      rw (Delivers-turn accept good v h)
  attempts-returns (b ∷ bad) good rest v (suc zero) attempt failure (b_fails, hs) h lt =
      absurd (omega arith)
  attempts-returns (b ∷ bad) good rest v (suc (suc left)) attempt failure (b_fails, hs) h lt =
      let (e, t) = IsTransient-turn accept b b_fails in
      rw t (attempts-returns bad good rest v (suc left) (attempt + 1) e hs h (omega arith))

-- However the transport answers, `request` sends the same request every time, its `X-Batch-Id`
-- included, at most `maxAttempts` times, and at least once if `maxAttempts` is not 0.
pub request-Resent :
    {W : Type 0} (config : ClientConfig W) (method path batch_id : String) (body : Option Value)
    (accept : List ℕ) (w : W) (log : List HttpRequest)
    → Resent config.max_attempts
        (record {
          method = method;
          path = path;
          provider = config.provider;
          batch_id = batch_id;
          body = body;
        })
        log
        (request (recording config) method path batch_id body accept (w, log)).1.1
unfolding request
request-Resent config method path batch_id body accept w log =
    attempts-Resent config accept _ config.max_attempts 1 _ (w, log)

-- If fewer than `maxAttempts` attempts fail by a transport error, by status 429 or one of at least 500 that
-- the caller does not read itself, or by a body that cannot be read, and the next one answers with a status
-- from 200 to 299, or one that the caller reads, and a readable or an empty body, `request` returns that
-- body, the empty one as an empty object, and makes no further attempt.
pub request-returns :
    {W : Type 0} (config : ClientConfig W) (method path batch_id : String) (body : Option Value)
    (accept : List ℕ) (bad : List Answer) (good : Answer) (rest : List Answer) (v : Value)
    → All (IsTransient accept) bad
    → Delivers accept good v
    → length bad < config.max_attempts
    → request (scripted config) method path batch_id body accept (bad ++ good ∷ rest) ≡ (ok v, rest)
unfolding request
request-returns config method path batch_id body accept bad good rest v hs h lt =
    attempts-returns config accept _ bad good rest v config.max_attempts 1 _ hs h lt
