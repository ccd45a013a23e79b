-- ===== src/Paging/FirstFit/Bitmap.antt =====
-- kernel/rust/src/memory/paging/allocators/firstfit.rs: the two bits that the bitmap keeps for each
-- entry, as an array of 512 values from 0 to 3.
use Prim.Native.Nat.{bit_and, bit_or}
use cookie_os.Base.{
  ℕ, zero, suc, ◌-◌, ◌*◌, ◌/◌, ◌%◌, ◌^◌, ◌<◌, ◌≡◌, refl, sym, inl, inr, Bool, true, false, ltb,
  ◌==◌, ◌&&◌, if◌then◌else◌, Bool-cases, update, ok, arith, lt→ltb, ==_iff,
}
use cookie_os.Paging.FirstFit.{Generics, MlffAllocator, get_availability, set_availability}

unfoldable pub true_under : ℕ → (ℕ → Bool) → Bool
true_under zero test = true
true_under (suc n) test = test n && true_under n test

pub at-true_under :
    (n : ℕ) (test : ℕ → Bool) → true_under n test ≡ true → (x : ℕ) → x < n → test x ≡ true
unfolding true_under
at-true_under zero test all x h = absurd (omega arith)
at-true_under (suc n) test all x h = ground (arith, at-true_under n test (ground arith) x)

-- The two bits of the place `k` of a byte, read and written.
abbrev bits_at : (byte k : ℕ) → ℕ
bits_at byte k = bit_and (byte / 2 ^ (6 - 2 * k)) 3

abbrev with_bits : (byte k value : ℕ) → ℕ
with_bits byte k value =
    bit_or (bit_and byte (255 - 3 * 2 ^ (6 - 2 * k) % 256)) (value * 2 ^ (6 - 2 * k) % 256)

byte_test : (byte k value j : ℕ) → Bool
byte_test byte k value j =
    let new = with_bits byte k value in
    ltb new 256
    && ltb (bits_at byte j) 4
    && bits_at new j == (if j == k then value else bits_at byte j)

byte_table :
    true_under 256 (λ byte.
      true_under 4 (λ k. true_under 4 (λ value. true_under 4 (λ j. byte_test byte k value j))))
    ≡ true
unfolding true_under byte_test
byte_table = refl

test_parts : (n m x y : ℕ) → (ltb n 256 && ltb m 4 && x == y) ≡ true → (n < 256) × (m < 4) × (x ≡ y)
test_parts n m x y h = ground arith

bits_laws :
    (byte k value j : ℕ)
    → byte < 256
    → k < 4
    → value < 4
    → j < 4
    → (with_bits byte k value < 256)
      × (bits_at byte j < 4)
      × (bits_at (with_bits byte k value) j ≡ (if j == k then value else bits_at byte j))
unfolding byte_test
bits_laws byte k value j b h v l =
    let test : byte_test byte k value j ≡ true =
      at-true_under 4 _
        (at-true_under 4 _ (at-true_under 4 _ (at-true_under 256 _ byte_table byte b) k h) value v)
        j l in
    test_parts _ _ _ _ test

zero_table : true_under 4 (λ k. bits_at 0 k == 0) ≡ true
unfolding true_under
zero_table = refl

pub zero_bits : (k : ℕ) → k < 4 → bits_at 0 k ≡ 0
zero_bits k h = (==_iff _ 0).0 (at-true_under 4 (λ k. bits_at 0 k == 0) zero_table k h)

same_byte : (i j : ℕ) → (i / 4 == j / 4) ≡ true → (j % 4 == i % 4) ≡ (j == i)
same_byte i j h = ground arith

other_byte : (i j : ℕ) → (i / 4 == j / 4) ≡ false → (j == i) ≡ false
other_byte i j h = ground arith

module _ {g : Generics} where
  -- What the bitmap holds for an entry.
  abbrev pub availability : MlffAllocator g → ℕ → ℕ
  availability self i = bits_at (self.availability_bitmap (i / 4)) (i % 4)

  abbrev pub HasBytes : MlffAllocator g → Type 0
  HasBytes self = (k : ℕ) → self.availability_bitmap k < 256

  pub get_availability_lem :
      (self : MlffAllocator g) (i : ℕ)
      → i < 512
      → get_availability self i ≡ ok (availability self i)
  unfolding get_availability
  get_availability_lem self i h = rw (lt→ltb (i / 4) 128 (omega arith)) refl

  pub availability-lt : (self : MlffAllocator g) (i : ℕ) → HasBytes self → availability self i < 4
  availability-lt self i h =
      (bits_laws (self.availability_bitmap (i / 4)) 0 0 (i % 4) (h (i / 4)) (omega arith)
        (omega arith) (omega arith)).1

  abbrev with_availability : MlffAllocator g → ℕ → ℕ → MlffAllocator g
  with_availability self idx value = record self {
    availability_bitmap =
        update self.availability_bitmap (idx / 4)
          (with_bits (self.availability_bitmap (idx / 4)) (idx % 4) value);
  }

  availability-with_availability :
      (self : MlffAllocator g) (idx value j : ℕ)
      → value < 4
      → HasBytes self
      → availability (with_availability self idx value) j
        ≡ (if j == idx then value else availability self j)
  availability-with_availability self idx value j v bytes = elim (Bool-cases (idx / 4 == j / 4)) [
    | inl e ↦
        rw (e, sym (same_byte idx j e), sym ((==_iff (idx / 4) (j / 4)).0 e))
          (bits_laws (self.availability_bitmap (idx / 4)) (idx % 4) value (j % 4) (bytes (idx / 4))
            (omega arith) v (omega arith)).2
    | inr e ↦ rw (e, other_byte idx j e) refl
  ]

  -- For an index below 512 and a value from 0 to 3, in a bitmap of bytes, the write returns; then the
  -- bitmap still consists of bytes, the value is read back, every other entry reads as before, and the
  -- page table and the sub-allocators are untouched.
  pub get_availability-set_availability :
      (self : MlffAllocator g) (idx value : ℕ)
      → idx < 512
      → value < 4
      → HasBytes self
      → (written : MlffAllocator g) × (set_availability self idx value ≡ ok written)
        × HasBytes written
        × ((j : ℕ) → availability written j ≡ (if j == idx then value else availability self j))
        × (written.page_table ≡ self.page_table)
        × (written.suballocators ≡ self.suballocators)
  unfolding set_availability
  get_availability-set_availability self idx value h v bytes = (
    with_availability self idx value,
    rw (lt→ltb (idx / 4) 128 (omega arith)) refl,
    λ k. elim (Bool-cases (idx / 4 == k)) [
      | inl e ↦
          rw (e)
            (bits_laws (self.availability_bitmap (idx / 4)) (idx % 4) value 0 (bytes (idx / 4))
              (omega arith) v (omega arith)).0
      | inr e ↦ rw (e) (bytes k)
    ],
    λ j. availability-with_availability self idx value j v bytes,
    refl,
    refl,
  )
