-- ===== src/Adapter/Addresses.antt =====
-- examples/go-control-plane/adapter.go, randomAddress: a domain of consonants and vowels in turn.
use xds_test_harness.Base.{
  ℕ, zero, suc, ◌+◌, ◌*◌, ◌≤◌, ◌<◌, ◌≡◌, refl, arith, Option, none, some, List, [], ◌∷◌, ◌++◌,
  length, length-append,
}
use xds_test_harness.Text.{Text, codes}

-- Package math/rand behind its seed: the number that the n-th call of Intn gives, which is below its
-- bound. The calls are numbered in the order in which the source makes them.
pub record Rand : Type 0 where
  pub intn : (call bound : ℕ) → ℕ
  pub intn-below : (call bound : ℕ) → 0 < bound → intn call bound < bound

-- xs[i]; out of range it panics.
unfoldable pub get : {A : Type 0} → List A → ℕ → Option A
get [] i = none
get (x ∷ xs) zero = some x
get (x ∷ xs) (suc i) = get xs i

abbrev pub consonants : Text
consonants = codes "bcdfklmnprstwyz"

abbrev pub vowels : Text
vowels = codes "aou"

abbrev pub tld : List Text
tld = codes ".biz" ∷ codes ".com" ∷ codes ".net" ∷ codes ".org" ∷ []

-- The loop, with the turns that are left and the number of the next call.
unfoldable pub syllables : Rand → ℕ → ℕ → Text → Option Text
syllables rand zero call domain = some domain
syllables rand (suc left) call domain = elim (get consonants (rand.intn call (length consonants))) [
  | none ↦ none
  | some consonant ↦ elim (get vowels (rand.intn (call + 1) (length vowels))) [
    | none ↦ none
    | some vowel ↦ syllables rand left (call + 2) (domain ++ consonant ∷ vowel ∷ [])
  ]
]

-- `none` is a panic.
unfoldable pub random_address : Rand → Option Text
unfolding syllables
random_address rand =
    let turns = 6 + rand.intn 0 12 in
    elim (syllables rand turns 1 []) [
      | none ↦ none
      | some domain ↦ elim (get tld (rand.intn (1 + 2 * turns) (length tld))) [
        | none ↦ none
        | some ending ↦ some (domain ++ ending)
      ]
    ]

get-below : {A : Type 0} (xs : List A) (i : ℕ) → i < length xs → (x : A) × (get xs i ≡ some x)
unfolding get
get-below [] i h = absurd (omega (arith, h))
get-below (x ∷ xs) zero h = (x, refl)
get-below (x ∷ xs) (suc i) h = get-below xs i (omega (arith, h))

syllables-length :
    (rand : Rand) (left call : ℕ) (domain : Text)
    → (address : Text) × (syllables rand left call domain ≡ some address)
      × (length address ≡ length domain + 2 * left)
unfolding syllables
syllables-length rand zero call domain = (domain, refl, omega arith)
syllables-length rand (suc left) call domain =
    let (c, here) =
      get-below consonants (rand.intn call (length consonants))
        (rand.intn-below call (length consonants) (omega arith)) in
    let (v, there) =
      get-below vowels (rand.intn (call + 1) (length vowels))
        (rand.intn-below (call + 1) (length vowels) (omega arith)) in
    let (address, rest, long) = syllables-length rand left (call + 2) (domain ++ c ∷ v ∷ []) in
    (
      address,
      rw (here, there, syllables) rest,
      omega (arith, long, length-append domain (c ∷ v ∷ [])),
    )

tld-length : (i : ℕ) (ending : Text) → get tld i ≡ some ending → length ending ≡ 4
unfolding get
tld-length i ending h = ground arith

-- An address is made whatever numbers are drawn, and has from 16 to 38 characters.
pub random_address-length :
    (rand : Rand)
    → (address : Text) × (random_address rand ≡ some address)
      × (16 ≤ length address)
      × (length address ≤ 38)
unfolding random_address
random_address-length rand =
    let turns = 6 + rand.intn 0 12 in
    let (domain, made, long) = syllables-length rand turns 1 [] in
    let i = rand.intn (1 + 2 * turns) (length tld) in
    let (ending, ended) =
      get-below tld i (rand.intn-below (1 + 2 * turns) (length tld) (omega arith)) in
    (
      domain ++ ending,
      rw (made, ended, random_address) refl,
      omega (arith, long, tld-length i ending ended, length-append domain ending),
      omega (
        arith,
        long,
        tld-length i ending ended,
        length-append domain ending,
        rand.intn-below 0 12 (omega arith),
      ),
    )
