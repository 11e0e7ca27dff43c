-- ===== src/Chan.antt =====
-- Go channels with a buffer: a send to a closed channel panics and one to a full channel waits; a
-- receive takes the oldest entry, waits on an empty channel, and gets the zero value from one that
-- is closed and empty.
use xds_test_harness.Base.{
  ℕ, ◌≤◌, ◌≡◌, arith, Bool, true, false, List, [], ◌∷◌, ◌++◌, length, length-append, ltb,
  if◌then◌else◌, ◌⊎◌, inl, inr, List-cases, Bool-cases,
}

pub record Chan (A : Type 0) : Type 0 where
  pub buffer : List A  -- oldest first
  pub capacity : ℕ
  pub closed : Bool

-- make(chan A, n)
abbrev pub make : {A : Type 0} → ℕ → Chan A
make n = record { buffer = []; capacity = n; closed = false }

pub data Sent (A : Type 0) : Type 0 where
  sent : Chan A → Sent A
  full : Sent A
  send_on_closed : Sent A

-- c <- a
unfoldable pub send : {A : Type 0} → A → Chan A → Sent A
send a c =
    if c.closed
    then send_on_closed
    else if ltb (length c.buffer) c.capacity
    then sent (record c { buffer = c.buffer ++ a ∷ [] })
    else full

pub data Taken (A : Type 0) : Type 0 where
  taken : A → Chan A → Taken A
  empty : Taken A
  closed_and_empty : Taken A

-- <-c
take_from : {A : Type 0} → List A → Chan A → Taken A
take_from [] c = if c.closed then closed_and_empty else empty
take_from (a ∷ rest) c = taken a (record c { buffer = rest })

unfoldable pub take : {A : Type 0} → Chan A → Taken A
unfolding take_from
take c = take_from c.buffer c

-- close(c)
abbrev pub close : {A : Type 0} → Chan A → Chan A
close c = record c { closed = true }

-- The buffer stays within the capacity.
abbrev pub Fits : {A : Type 0} → Chan A → Type 0
Fits c = length c.buffer ≤ c.capacity

send-Fits : {A : Type 0} (a : A) (c d : Chan A) → send a c ≡ sent d → Fits c → Fits d
unfolding send
send-Fits a c d e h = ground (arith, length-append c.buffer (a ∷ []))

-- A send appends to the buffer, waits, or panics.
pub send-cases :
    {A : Type 0} (a : A) (c : Chan A)
    → (send a c ≡ sent (record c { buffer = c.buffer ++ a ∷ [] }))
      ⊎ (send a c ≡ full)
      ⊎ (send a c ≡ send_on_closed)
unfolding send
send-cases a c = ground arith

-- A receive finds nothing, or takes the oldest entry.
pub take-cases :
    {A : Type 0} (c : Chan A)
    → (take c ≡ empty)
      ⊎ ((c.closed ≡ true) × (take c ≡ closed_and_empty))
      ⊎ ((a : A) × (rest : List A) × (c.buffer ≡ a ∷ rest)
          × (take c ≡ taken a (record c { buffer = rest })))
unfolding take
take-cases c = elim (List-cases c.buffer) [
  | inl none_left ↦ elim (Bool-cases c.closed) [
    | inl shut ↦ inr (inl (shut, rw (none_left, shut, take_from)))
    | inr open_c ↦ inl (rw (none_left, open_c, take_from))
  ]
  | inr (a, rest, some_left) ↦ inr (inr (a, rest, some_left, rw (some_left, take_from)))
]
