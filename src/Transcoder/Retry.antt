-- ===== src/Transcoder/Retry.antt =====
-- `withRetry` of internal/service/media_transcoder.go.
use api_calixio.Prelude.{
  ℕ, zero, suc, ◌+◌, ◌*◌, ◌≤◌, Bool, true, false, Option, none, some, ◌≡◌, arith, inl, inr, ◌-◌,
  Option-cases, Bool-cases,
}

-- How the loop ends: without an error, with the last error after the last attempt, or with the
-- error of a context that is done, behind the last error if there was one.
pub data Outcome (E : Type 0) : Type 0 where
  finished : Outcome E
  gave_up : E → Outcome E
  interrupted : Option E → Outcome E

-- `maxAttempts`, and `time.Second` in nanoseconds
abbrev pub max_attempts : ℕ
max_attempts = 4

abbrev pub first_backoff : ℕ
first_backoff = 1000000000

-- `Y` is the state of everything outside; `done` is `ctx.Err() != nil`; `fn` answers an error or
-- none; and `sleep` waits and answers whether the timer fired before the context was done.
module _ {E Y : Type 0} (done : Y → Bool) (fn : Y → Option E × Y) (sleep : ℕ → Y → Bool × Y) where
  -- One attempt and the `left` others behind it.
  unfoldable pub attempts : ℕ → ℕ → Option E → Y → Outcome E × Y
  attempts zero backoff last y = elim (done y) [
    | true ↦ (interrupted last, y)
    | false ↦
        let (r, y1) = fn y in
        elim r [
          | none ↦ (finished, y1)
          | some e ↦ (elim (done y1) [ true ↦ interrupted (some e) | false ↦ gave_up e ], y1)
        ]
  ]
  attempts (suc left) backoff last y = elim (done y) [
    | true ↦ (interrupted last, y)
    | false ↦
        let (r, y1) = fn y in
        elim r [
          | none ↦ (finished, y1)
          | some e ↦ elim (done y1) [
            | true ↦ (interrupted (some e), y1)
            | false ↦
                let (fired, y2) = sleep backoff y1 in
                elim fired [
                  | true ↦ attempts left (backoff * 2) (some e) y2
                  | false ↦ (interrupted (some e), y2)
                ]
          ]
        ]
  ]

  unfoldable pub with_retry : Y → Outcome E × Y
  unfolding attempts
  with_retry y = attempts (max_attempts - 1) first_backoff none y

  -- What every try and every wait keep, the loop keeps.
  attempts-keeps :
      (P : Y → Type 0)
      → ((y : Y) → P y → P (fn y).1)
      → ((b : ℕ) (y : Y) → P y → P (sleep b y).1)
      → (left backoff : ℕ) (last : Option E) (y : Y) → P y
      → P (attempts left backoff last y).1
  unfolding attempts
  attempts-keeps P tried slept zero backoff last y p = elim (Bool-cases (done y)) [
    | inl e ↦ rw (e, attempts) p
    | inr e ↦ elim (Option-cases (fn y).0) [
      | inl f ↦ rw (e, f, attempts) (tried y p)
      | inr (x, f) ↦ rw (e, f, attempts) (tried y p)
    ]
  ]
  attempts-keeps P tried slept (suc left) backoff last y p =
      let q = tried y p in
      elim (Bool-cases (done y)) [
        | inl e ↦ rw (e, attempts) p
        | inr e ↦ elim (Option-cases (fn y).0) [
          | inl f ↦ rw (e, f, attempts) q
          | inr (x, f) ↦ elim (Bool-cases (done (fn y).1)) [
            | inl g ↦ rw (e, f, g, attempts) q
            | inr g ↦
                let s = slept backoff (fn y).1 q in
                elim (Bool-cases (sleep backoff (fn y).1).0) [
                  | inl h ↦
                      rw (e, f, g, h, attempts)
                        (attempts-keeps P tried slept left (backoff * 2) (some x)
                          (sleep backoff (fn y).1).1 s)
                  | inr h ↦ rw (e, f, g, h, attempts) s
                ]
          ]
        ]
      ]

  pub with_retry-keeps :
      (P : Y → Type 0)
      → ((y : Y) → P y → P (fn y).1)
      → ((b : ℕ) (y : Y) → P y → P (sleep b y).1)
      → (y : Y) → P y
      → P (with_retry y).1
  unfolding with_retry
  with_retry-keeps P tried slept y p = attempts-keeps P tried slept 3 first_backoff none y p

  module _ (count : Y → ℕ) (tried : (y : Y) → count (fn y).1 ≡ count y + 1)
      (slept : (b : ℕ) (y : Y) → count (sleep b y).1 ≡ count y) where
    attempts_bounded :
        (left backoff : ℕ) (last : Option E) (y : Y)
        → count (attempts left backoff last y).1 ≤ count y + left + 1
    unfolding attempts
    attempts_bounded zero backoff last y = let more = tried y in ground arith
    attempts_bounded (suc left) backoff last y =
        let more = tried y in
        let same = slept backoff (fn y).1 in
        elim (Option-cases (fn y).0) [
          | inl e ↦ ground arith
          | inr (e, f) ↦
              let rest = attempts_bounded left (backoff * 2) (some e) (sleep backoff (fn y).1).1 in
              ground arith
        ]

    attempts_exhausted :
        (left backoff : ℕ) (last : Option E) (y y' : Y) (e : E)
        → attempts left backoff last y ≡ (gave_up e, y')
        → count y' ≡ count y + left + 1
    unfolding attempts
    attempts_exhausted zero backoff last y y' e h = let more = tried y in ground arith
    attempts_exhausted (suc left) backoff last y y' e h =
        let more = tried y in
        let same = slept backoff (fn y).1 in
        elim (Option-cases (fn y).0) [
          | inl none_left ↦ ground arith
          | inr (x, f) ↦
              let rest =
                attempts_exhausted left (backoff * 2) (some x) (sleep backoff (fn y).1).1 y' e in
              ground arith
        ]

    -- Whatever happens, the operation is tried at most four times: if each try adds one to a count
    -- and waiting adds nothing, the count is at most four higher.
    pub with_retry_bounded : (y : Y) → count (with_retry y).1 ≤ count y + max_attempts
    unfolding with_retry
    with_retry_bounded y = let bound = attempts_bounded 3 first_backoff none y in omega arith

    -- The last error is returned as it is only after four tries: under the same conditions on the
    -- count, it is then four higher.
    pub with_retry_exhausted :
        (y y' : Y) (e : E) → with_retry y ≡ (gave_up e, y') → count y' ≡ count y + max_attempts
    unfolding with_retry
    with_retry_exhausted y y' e h =
        let all_tries = attempts_exhausted 3 first_backoff none y y' e h in omega arith
