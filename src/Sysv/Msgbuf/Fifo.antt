-- ===== src/Sysv/Msgbuf/Fifo.antt =====
-- A message buffer as a bounded queue of the places that hold messages.
use mathlib.Core.Path.{subst}
use multikernel.Common.{
  sym, ℕ, zero, suc, ◌+◌, ◌-◌, ◌*◌, ◌%◌, ◌≤◌, ◌<◌, ◌≡◌, refl, ap, ◌∙◌, ◌≢◌, ◌⊎◌, inl, inr, List, [],
  ◌∷◌, ◌++◌, ◌==◌, ==_iff, Bool-cases, arith, Result, ok, err, enospc, enomsg,
}
use multikernel.Sysv.Msgbuf.{
  Msgbuf, msg_length_max, msg_size_max, msgbuf_size, msgbuf_put, msgbuf_get,
}

-- A buffer in use: at most as many messages as fit, each at a multiple of their size.
pub record IsValid (b : Msgbuf) : Type 0 where
  pub sized : b.size ≡ msg_size_max
  pub bounded : b.len ≤ msg_length_max
  pub head_within : b.head < msgbuf_size
  pub aligned : b.head % msg_size_max ≡ 0
  pub closed : b.tail ≡ (b.head + b.len * msg_size_max) % msgbuf_size

-- The places of `n` messages from `h` on.
abbrev pub places : ℕ → ℕ → List ℕ
places h zero = []
places h (suc n) = h ∷ places ((h + msg_size_max) % msgbuf_size) n

-- The places of the queued messages, oldest first.
abbrev pub queued : Msgbuf → List ℕ
queued b = places b.head b.len

abbrev pub Avoids : ℕ → List ℕ → Type 0
Avoids x [] = Unit {0}
Avoids x (y ∷ ys) = ((x + msg_size_max ≤ y) ⊎ (y + msg_size_max ≤ x)) × Avoids x ys

places-append :
    (h n : ℕ)
    → h < msgbuf_size
    → places h (suc n) ≡ places h n ++ ((h + n * msg_size_max) % msgbuf_size) ∷ []
places-append h zero lt = ap (λ x. x ∷ []) (omega arith)
places-append h (suc n) lt =
    ap (λ l. h ∷ l)
      (places-append ((h + msg_size_max) % msgbuf_size) n (omega arith)
        ∙ ap (λ x. places ((h + msg_size_max) % msgbuf_size) n ++ x ∷ []) (omega arith))

Avoids-at : {x y : ℕ} (l : List ℕ) → x ≡ y → Avoids y l → Avoids x l
Avoids-at l e a = subst (λ z. Avoids z l) (sym e) a

places_of_pos :
    (h n : ℕ) → n ≢ 0 → places h n ≡ h ∷ places ((h + msg_size_max) % msgbuf_size) (n - 1)
places_of_pos h zero ne = absurd (ne refl)
places_of_pos h (suc n) ne = ap (λ k. h ∷ places ((h + msg_size_max) % msgbuf_size) k) (omega arith)

-- The next place overlaps none of fewer than `msg_length_max` places before it.
places-Avoids :
    (h n k : ℕ)
    → h < msgbuf_size
    → h % msg_size_max ≡ 0
    → n + k < msg_length_max
    → Avoids ((h + (n + k) * msg_size_max) % msgbuf_size) (places h n)
places-Avoids h zero k lt al room = tt
places-Avoids h (suc n) k lt al room = (
  apart h (suc n + k) lt al room (omega arith),
  Avoids-at (places ((h + msg_size_max) % msgbuf_size) n) (shift_place h n k) (
      places-Avoids ((h + msg_size_max) % msgbuf_size) n k (omega arith) (omega arith)
        (omega arith)),
)
  where
    apart :
        (h m : ℕ)
        → h < msgbuf_size
        → h % msg_size_max ≡ 0
        → m < msg_length_max
        → 0 < m
        → ((h + m * msg_size_max) % msgbuf_size + msg_size_max ≤ h)
          ⊎ (h + msg_size_max ≤ (h + m * msg_size_max) % msgbuf_size)
    apart h m lt al hm pm = ground arith

    shift_place :
        (h n k : ℕ)
        → (h + (suc n + k) * msg_size_max) % msgbuf_size
          ≡ ((h + msg_size_max) % msgbuf_size + (n + k) * msg_size_max) % msgbuf_size
    shift_place h n k = omega arith

-- What `msgbuf_put` returns and leaves: refused when full; else a place within the data that
-- overlaps no queued message, at the end of the queue.
abbrev pub Puts : Msgbuf → Result ℕ × Msgbuf → Type 0
Puts b (r, b') =
    ((b.len ≡ msg_length_max) × (r ≡ err enospc) × (b' ≡ b))
    ⊎ ((x : ℕ) × (b.len ≢ msg_length_max)
        × (r ≡ ok x)
        × (x + msg_size_max ≤ msgbuf_size)
        × Avoids x (queued b)
        × (queued b' ≡ queued b ++ x ∷ []))

-- What `msgbuf_get` returns and leaves: refused when empty; else the oldest place.
abbrev pub Gets : Msgbuf → Result ℕ × Msgbuf → Type 0
Gets b (r, b') =
    ((queued b ≡ []) × (r ≡ err enomsg) × (b' ≡ b))
    ⊎ ((x : ℕ) × (r ≡ ok x) × (queued b ≡ x ∷ queued b'))

-- In a valid buffer `msgbuf_put` fails with ENOSPC exactly if 16 messages are queued; else it hands
-- out a place inside the data that overlaps no queued message, and queues it last.
pub msgbuf_put_lem : (b : Msgbuf) → IsValid b → Puts b (msgbuf_put b)
unfolding msgbuf_put
msgbuf_put_lem b v = elim (Bool-cases (b.len == msg_length_max)) [
  | inl full ↦ rw full (inl ((==_iff b.len msg_length_max).0 full, refl, refl))
  | inr room ↦ rw room (
      inr (
        b.tail,
        (λ e. ground arith),
        refl,
        omega (arith, v.closed, v.aligned),
        Avoids-at (queued b) (omega (arith, v.closed))
            (places-Avoids b.head b.len 0 v.head_within v.aligned (ground (arith, v.bounded))),
        ap (places b.head) {y = suc b.len} (omega arith)
            ∙ places-append b.head b.len v.head_within
            ∙ ap (λ x. places b.head b.len ++ x ∷ []) (sym v.closed),
      ))
]

-- In a valid buffer `msgbuf_get` fails with ENOMSG exactly if no message is queued; else it hands out
-- the place of the oldest message, and takes it from the queue.
pub msgbuf_get_lem : (b : Msgbuf) → IsValid b → Gets b (msgbuf_get b)
unfolding msgbuf_get
msgbuf_get_lem b v = elim (Bool-cases (b.len == 0)) [
  | inl empty ↦ rw empty (inl (ap (places b.head) ((==_iff b.len 0).0 empty), refl, refl))
  | inr some_left ↦ rw some_left (
      inr (
        b.head,
        refl,
        places_of_pos b.head b.len (λ e. ground arith)
            ∙ ap (λ z. b.head ∷ places ((b.head + z) % msgbuf_size) (b.len - 1)) (sym v.sized),
      ))
]

-- Both keep the invariant.
pub msgbuf_put-IsValid : (b : Msgbuf) → IsValid b → IsValid (msgbuf_put b).1
unfolding msgbuf_put
msgbuf_put-IsValid b v = ground arith

pub msgbuf_get-IsValid : (b : Msgbuf) → IsValid b → IsValid (msgbuf_get b).1
unfolding msgbuf_get
msgbuf_get-IsValid b v = ground arith
