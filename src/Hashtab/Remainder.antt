-- ===== src/Hashtab/Remainder.antt =====
-- The remainders by multiplication are remainders.
use ulmt_open_mp_gcc.Base.{ℕ, ◌+◌, ◌-◌, ◌%◌, ◌<◌, ◌≡◌, arith, All}
use ulmt_open_mp_gcc.Hashtab.{PrimeEnt, prime_tab, half_word, htab_mod, htab_mod_m2}

-- The entry gives the remainder of every hash by its prime, and one more than that by the prime less 2.
abbrev pub Exact : PrimeEnt → Type 0
Exact p =
    (hash : ℕ)
    → hash < half_word
    → (htab_mod hash p ≡ hash % p.prime) × (htab_mod_m2 hash p ≡ 1 + hash % (p.prime - 2))

pub prime_tab-Exact : All Exact prime_tab
unfolding htab_mod htab_mod_m2
prime_tab-Exact = ground arith
