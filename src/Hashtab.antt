-- ===== src/Hashtab.antt =====
-- hashtab.h: the hash table of the dependences, as far as its sizes and its remainders go. `hashval_t`
-- is a word of 32 bits, and `unsigned long` one of 64.
pub mod Remainder
pub mod Search
mod Tests
use ulmt_open_mp_gcc.Base.{
  ℕ, zero, suc, ◌+◌, ◌-◌, ◌*◌, ◌/◌, ◌%◌, ◌^◌, Option, none, some, if◌then◌else◌, ltb, ◌==◌, List,
  [], ◌∷◌,
}

-- `struct prime_ent`
pub record PrimeEnt : Type 0 where
  pub prime : ℕ
  pub inv : ℕ
  pub inv_m2 : ℕ
  pub shift : ℕ

abbrev prime_ent : ℕ → ℕ → ℕ → ℕ → PrimeEnt
prime_ent p i j s = record { prime = p; inv = i; inv_m2 = j; shift = s }

abbrev pub prime_tab : List PrimeEnt
prime_tab =
    prime_ent 7 613566757 2576980379 2
    ∷ prime_ent 13 991146300 1952257863 3
    ∷ prime_ent 31 138547333 444306962 4
    ∷ prime_ent 61 211227900 363980280 5
    ∷ prime_ent 127 33818641 103079216 6
    ∷ prime_ent 251 85557118 120742053 7
    ∷ prime_ent 509 25314150 42356680 8
    ∷ prime_ent 1021 12619885 21074423 9
    ∷ prime_ent 2039 18957679 23193246 10
    ∷ prime_ent 4093 3148034 5249288 11
    ∷ prime_ent 8191 524353 1573441 12
    ∷ prime_ent 16381 786577 1311121 13
    ∷ prime_ent 32749 2491813 2754278 14
    ∷ prime_ent 65521 983266 1114402 15
    ∷ prime_ent 131071 32769 98307 16
    ∷ prime_ent 262139 81922 114692 17
    ∷ prime_ent 524287 8193 24577 18
    ∷ prime_ent 1048573 12289 20481 19
    ∷ prime_ent 2097143 18433 22529 20
    ∷ prime_ent 4194301 3073 5121 21
    ∷ prime_ent 8388593 7681 8705 22
    ∷ prime_ent 16777213 769 1281 23
    ∷ prime_ent 33554393 4993 5249 24
    ∷ prime_ent 67108859 321 449 25
    ∷ prime_ent 134217689 1249 1313 26
    ∷ prime_ent 268435399 913 945 27
    ∷ prime_ent 536870909 25 41 28
    ∷ prime_ent 1073741789 141 149 29
    ∷ prime_ent 2147483647 3 7 30
    ∷ prime_ent 4294967291 6 8 31
    ∷ []

-- `prime_tab[i]`; `none` past the end
abbrev pub entry : List PrimeEnt → ℕ → Option PrimeEnt
entry [] i = none
entry (e ∷ es) zero = some e
entry (e ∷ es) (suc i) = entry es i

abbrev pub half_word : ℕ
half_word = 4294967296

-- `htab_mod_1`, "Return X % Y", by a multiplication with the inverse; `hashval_t` has 32 bits.
pub mod_1 : ℕ → ℕ → ℕ → ℕ → ℕ
mod_1 x y inv shift =
    let t1 = (x * inv) / half_word in
    let t2 = (x + half_word - t1) % half_word in
    let t3 = t2 / 2 in
    let t4 = (t1 + t3) % half_word in
    let q = t4 / 2 ^ shift in (x + half_word - (q * y) % half_word) % half_word

-- `htab_mod` and `htab_mod_m2`, with the entry of the table for the size of the hash table
pub htab_mod : ℕ → PrimeEnt → ℕ
unfolding mod_1
htab_mod hash p = mod_1 hash p.prime p.inv p.shift

pub htab_mod_m2 : ℕ → PrimeEnt → ℕ
unfolding mod_1
htab_mod_m2 hash p = (1 + mod_1 hash (p.prime - 2) p.inv_m2 p.shift) % half_word

-- How `higher_prime_index` ends: with an index, by the call of abort, with a read of the entry at an
-- index past the end of the table, or not within the rounds of the model.
pub data Ending : Type 0 where
  found read_past : ℕ → Ending
  aborted unfinished : Ending

-- The loop.
pub search : List PrimeEnt → ℕ → ℕ → ℕ → ℕ → Ending
search tab zero n low high = if low == high then found low else unfinished
search tab (suc fuel) n low high =
    if low == high
    then found low
    else (let mid = low + (high - low) / 2 in
        elim (entry tab mid) [
          | none ↦ read_past mid
          | some e ↦
              search tab fuel n (if ltb e.prime n then mid + 1 else low)
                (if ltb e.prime n then high else mid)
        ])

-- The test behind the loop, `if (n > prime_tab[low].prime) abort ();`.
abbrev pub check_index : List PrimeEnt → ℕ → Ending → Ending
check_index tab n (found low) = elim (entry tab low) [
  | none ↦ read_past low
  | some e ↦ if ltb e.prime n then aborted else found low
]
check_index tab n (read_past i) = read_past i
check_index tab n aborted = aborted
check_index tab n unfinished = unfinished

-- `higher_prime_index`. Five rounds halve the 30 entries to none.
pub higher_prime_index : ℕ → Ending
unfolding search
higher_prime_index n = check_index prime_tab n (search prime_tab 5 n 0 30)
