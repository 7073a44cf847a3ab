-- ===== src/Hashtab/Tests.antt =====
-- The sizes and the remainders of small tables.
use ulmt_open_mp_gcc.Base.{◌≡◌, refl}
use ulmt_open_mp_gcc.Hashtab.{found, read_past, higher_prime_index}
use ulmt_open_mp_gcc.Hashtab.Search.{higher_prime_index-below}

-- The first prime from 1000 on is 1021.
thousand : higher_prime_index 1000 ≡ found 7
unfolding higher_prime_index
thousand = refl

higher_prime_index-below_example : higher_prime_index 1000 ≡ found 7
higher_prime_index-below_example = higher_prime_index-below 1000

-- 7 is the first prime of the table, and its own answer.
seven : higher_prime_index 7 ≡ found 0
unfolding higher_prime_index
seven = refl

too_large : higher_prime_index 4294967292 ≡ read_past 30
unfolding higher_prime_index
too_large = refl
