-- ===== src/OauthState/Spec.antt =====
-- What the store of src/temis_sso/oauth_state.py promises, without its list of entries: a function
-- that says what a key would give at each time. Every sequence of `put` and `take` answers as the
-- function does.
use mathlib.Core.Path.{fun_ext}
use temis_sso_lab.Base.{
  ℕ, ◌+◌, ◌*◌, String, false, Option, none, some, List, [], ◌∷◌, ◌==◌, ltb, if◌then◌else◌, ok, err,
  Result, ◌≡◌, refl, ap, arith, eq_refl, text_cases, inl, inr, Bool-cases, eq_iff, ltb→lt, find,
  ◌∙◌,
}
use temis_sso_lab.OauthState.{Redis, Dict, Digests, set, peek, remove, getdel, store_key, put, take}
use temis_sso_lab.OauthState.Laws.{peek-remove, peek-remove_ne, peek-set, peek-set_ne}

-- What a key gives at a time.
abbrev pub Promise : Type 0
Promise = String → ℕ → Option Dict

-- The promise that a Redis database stands for.
abbrev pub promise_of : Redis Dict → Promise
promise_of redis key now = peek key now redis

-- A value under a key until its deadline, whatever was there.
abbrev pub promise : String → Dict → ℕ → Promise → Promise
promise key value deadline p k now =
    if k == key then if ltb now deadline then some value else none else p k now

-- Nothing under a key any more.
abbrev pub withdraw : String → Promise → Promise
withdraw key p k now = if k == key then none else p k now

eq_comm-false : (s t : String) → (s == t) ≡ false → (t == s) ≡ false
eq_comm-false s t h = ground (arith, eq_iff s t, eq_iff t s)

peek-set_expired :
    (key : String) (value : Dict) (ttl now later : ℕ) (redis : Redis Dict)
    → ltb later (now + ttl * 1000000) ≡ false
    → peek key later (set key value ttl now redis) ≡ none
unfolding peek set find remove
peek-set_expired key value ttl now later redis h = rw (eq_refl key, h) (peek-remove key later redis)

promise_of-set :
    (key : String) (value : Dict) (ttl now : ℕ) (redis : Redis Dict)
    → promise_of (set key value ttl now redis)
      ≡ promise key value (now + ttl * 1000000) (promise_of redis)
promise_of-set key value ttl now redis = fun_ext λ k. fun_ext λ later. elim (text_cases k key) [
  | inl same ↦
      rw (same, eq_refl key)
        (elim (Bool-cases (ltb later (now + ttl * 1000000))) [
          | inl e ↦
              rw e (peek-set key value ttl now later redis (ltb→lt later (now + ttl * 1000000) e))
          | inr e ↦ rw e (peek-set_expired key value ttl now later redis e)
        ])
  | inr differ ↦
      rw differ (peek-set_ne k key value ttl now later redis (eq_comm-false k key differ))
]

promise_of-remove :
    (key : String) (redis : Redis Dict)
    → promise_of (remove key redis) ≡ withdraw key (promise_of redis)
promise_of-remove key redis = fun_ext λ k. fun_ext λ later. elim (text_cases k key) [
  | inl same ↦ rw (same, eq_refl key) (peek-remove key later redis)
  | inr differ ↦ rw differ (peek-remove_ne k key later redis (eq_comm-false k key differ))
]

-- The calls of the store.
pub data Op : Type 0 where
  puts : String → Dict → ℕ → String → Op
  takes : String → String → Op

abbrev given : Result (Option Dict) → Option Dict
given (ok value) = value
given (err e) = none

module _ (digests : Digests) where
  abbrev call : ℕ → Op → Redis Dict → Option Dict × Redis Dict
  call now (puts namespace value ttl_seconds raw) redis =
      (none, (put digests namespace value ttl_seconds raw now redis).1)
  call now (takes namespace raw) redis =
      (given (take digests namespace raw now redis).0, (take digests namespace raw now redis).1)

  -- The answers of a sequence of calls, each with its time.
  unfoldable pub run : List (ℕ × Op) → Redis Dict → List (Option Dict)
  run [] redis = []
  run ((now, op) ∷ ops) redis = let (answer, redis') = call now op redis in answer ∷ run ops redis'

  abbrev call_promise : ℕ → Op → Promise → Option Dict × Promise
  call_promise now (puts namespace value ttl_seconds raw) p =
      (none, promise (store_key digests namespace raw) value (now + ttl_seconds * 1000000) p)
  call_promise now (takes namespace raw) p =
      (p (store_key digests namespace raw) now, withdraw (store_key digests namespace raw) p)

  -- The answers that are promised.
  unfoldable pub run_promise : List (ℕ × Op) → Promise → List (Option Dict)
  run_promise [] p = []
  run_promise ((now, op) ∷ ops) p =
      let (answer, p') = call_promise now op p in answer ∷ run_promise ops p'

  -- Every sequence of calls, at whatever times, answers as is promised: a key gives the last value
  -- that was put under it until its time is over or it is taken, and nothing else, and the order and
  -- the leftovers of the entries do not show.
  pub run-run_promise :
      (ops : List (ℕ × Op)) (redis : Redis Dict)
      → run ops redis ≡ run_promise ops (promise_of redis)
  unfolding run run_promise put take getdel
  run-run_promise [] redis = refl
  run-run_promise ((now, puts namespace value ttl_seconds raw) ∷ ops) redis =
      let key = store_key digests namespace raw in
      ap (λ answers. none ∷ answers)
        (run-run_promise ops (set key value ttl_seconds now redis)
          ∙ ap (run_promise ops) (promise_of-set key value ttl_seconds now redis))
  run-run_promise ((now, takes namespace raw) ∷ ops) redis =
      let key = store_key digests namespace raw in
      ap (λ answers. peek key now redis ∷ answers)
        (run-run_promise ops (remove key redis)
          ∙ ap (run_promise ops) (promise_of-remove key redis))
