-- ===== src/Transcoder/Tail.antt =====
-- `tailBuffer` of internal/service/media_transcoder.go, which keeps the end of what a process
-- writes to its standard error. `maxBytes` is a positive constant at each use, so it is an ℕ.
use api_calixio.Prelude.{
  ℕ, ◌+◌, ◌-◌, ◌≤◌, ◌<◌, List, [], ◌∷◌, ◌++◌, ◌≡◌, ◌∙◌, sym, ap, length-append, arith, length, drop,
  concat, leb, ltb, if◌then◌else◌, drop-append, drop-drop, drop-nil, drop-all, length-drop,
  append_assoc, append-nil,
}

pub record TailBuffer : Type 0 where
  pub max_bytes : ℕ
  pub buf : List ℕ

abbrev pub new_tail : ℕ → TailBuffer
new_tail max = record { max_bytes = max; buf = [] }

-- `Write`, which also returns `len(p)` and no error
unfoldable pub write : TailBuffer → List ℕ → TailBuffer
write b p =
    if leb b.max_bytes 0
    then b
    else if leb b.max_bytes (length p)
    then record b { buf = drop (length p - b.max_bytes) p }
    else if ltb b.max_bytes (length b.buf + length p)
    then record b { buf = drop (length b.buf + length p - b.max_bytes) b.buf ++ p }
    else record b { buf = b.buf ++ p }

-- The writes of a whole run, in order.
unfoldable pub write_all : TailBuffer → List (List ℕ) → TailBuffer
write_all b [] = b
write_all b (p ∷ ps) = write_all (write b p) ps

-- The last `n` elements.
abbrev pub last : ℕ → List ℕ → List ℕ
last n xs = drop (length xs - n) xs

max_bytes-write : (b : TailBuffer) (p : List ℕ) → (write b p).max_bytes ≡ b.max_bytes
unfolding write
max_bytes-write b p = ground arith

-- Dropping from a joined list, the part of the index in front of the second list.
last-append :
    (n : ℕ) (h p : List ℕ)
    → last n (h ++ p)
      ≡ drop (length h + length p - n) h ++ drop (length h + length p - n - length h) p
last-append n h p = rw (length-append h p) (drop-append (length h + length p - n) h p)

write_long : (n : ℕ) (h p : List ℕ) → n ≤ length p → drop (length p - n) p ≡ last n (h ++ p)
write_long n h p le =
    rw (last-append n h p, drop-all (length h + length p - n) h (omega arith))
      (ap (λ (k : ℕ). drop k p) (omega arith))

write_short :
    (n : ℕ) (h p : List ℕ)
    → length p ≤ n
    → drop (length (last n h) + length p - n) (last n h) ++ p ≡ last n (h ++ p)
write_short n h p le =
    let same : length h - n + (length (last n h) + length p - n) ≡ length h + length p - n =
      omega (arith, length-drop (length h - n) h) in
    let start : length h + length p - n - length h ≡ 0 = omega arith in
    rw (
      last-append n h p,
      drop-drop (length (last n h) + length p - n) (length h - n) h,
      same,
      start,
    )

write_fits :
    (n : ℕ) (h p : List ℕ) → length (last n h) + length p ≤ n → last n h ++ p ≡ last n (h ++ p)
write_fits n h p le =
    let none_dropped : length (last n h) + length p - n ≡ 0 = omega arith in
    rw none_dropped at (write_short n h p (omega arith))

-- If the buffer holds the end of what was written before, it does so after one more write.
write-last :
    (b : TailBuffer) (h p : List ℕ)
    → b.buf ≡ last b.max_bytes h
    → 0 < b.max_bytes
    → (write b p).buf ≡ last b.max_bytes (h ++ p)
unfolding write
write-last b h p e pos =
    ground
      (arith, write_long b.max_bytes h p, write_short b.max_bytes h p, write_fits b.max_bytes h p)

write_all-last :
    (b : TailBuffer) (h : List ℕ) (ps : List (List ℕ))
    → b.buf ≡ last b.max_bytes h
    → 0 < b.max_bytes
    → (write_all b ps).buf ≡ last b.max_bytes (h ++ concat ps)
unfolding write_all
write_all-last b h [] e pos = rw append-nil e
write_all-last b h (p ∷ ps) e pos =
    let kept = max_bytes-write b p in
    write_all-last (write b p) (h ++ p) ps
      (write-last b h p e pos ∙ ap (λ (k : ℕ). last k (h ++ p)) (sym kept)) (rw kept pos)
    ∙ rw (kept, append_assoc)

-- After any writes into a new buffer of positive capacity, the buffer holds exactly the last
-- `max` bytes of all that was written (all of it, if it is shorter).
pub write_all_refines :
    (max : ℕ) (ps : List (List ℕ))
    → 0 < max
    → (write_all (new_tail max) ps).buf ≡ drop (length (concat ps) - max) (concat ps)
write_all_refines max ps pos = write_all-last (new_tail max) [] ps (sym (drop-nil (0 - max))) pos
