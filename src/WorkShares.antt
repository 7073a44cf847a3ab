-- ===== src/WorkShares.antt =====
-- work.c: the work shares that a team has free. A work share is its address; `free_work_share` is the
-- variant with atomic builtins.
pub mod Lists
mod Tests
use ulmt_open_mp_gcc.Base.{
  ℕ, zero, suc, ◌+◌, ◌-◌, ◌*◌, ◌%◌, Option, none, some, update, List, [], ◌∷◌,
}

-- The pointers of `struct gomp_work_share`, by address.
pub record ShareLinks : Type 0 where
  pub next_free : ℕ → Option ℕ
  pub next_alloc : ℕ → Option ℕ

-- The fields of `struct gomp_team`; `blocks` is the address of `work_shares[0]`.
pub record Shares : Type 0 where
  pub work_share_list_alloc : Option ℕ
  pub work_share_list_free : Option ℕ
  pub work_share_chunk : ℕ
  pub work_shares : ℕ

abbrev pub set_next_free : ShareLinks → ℕ → Option ℕ → ShareLinks
set_next_free m a v = record m { next_free = update m.next_free a v }

-- `for (i = 1; i < chunk - 1; i++) ws[i].next_free = &ws[i + 1]; ws[i].next_free = NULL;`, with `more`
-- work shares behind the one at `ws`; `size` is that of a work share.
pub link_free : ShareLinks → ℕ → ℕ → ℕ → ShareLinks
link_free m ws size zero = set_next_free m ws none
link_free m ws size (suc more) =
    link_free (set_next_free m ws (some (ws + size))) (ws + size) size more

-- The part of `alloc_work_share` that allocates, at `ws`.
pub alloc_chunk : ShareLinks → Shares → ℕ → ℕ → ℕ × (ShareLinks × Shares)
unfolding link_free
alloc_chunk m team ws size =
    let chunk = (team.work_share_chunk * 2) % 4294967296 in
    let m₁ = record m {
      next_alloc =
          update (update m.next_alloc ws (m.next_alloc team.work_shares)) team.work_shares
            (some ws);
    } in
    (
      ws,
      (
        link_free m₁ (ws + size) size ((chunk + 4294967294) % 4294967296),
        record team { work_share_chunk = chunk; work_share_list_alloc = some (ws + size) },
      ),
    )

-- The part with the list of the freed work shares, of which `f` is the one freed last: `next` is the one
-- before it.
abbrev pub alloc_before : ShareLinks → Shares → ℕ → ℕ → ℕ → Option ℕ → ℕ × (ShareLinks × Shares)
alloc_before m team ws size f none = alloc_chunk m team ws size
alloc_before m team ws size f (some next) =
    (next, (set_next_free m f none, record team { work_share_list_alloc = m.next_free next }))

abbrev pub alloc_freed : ShareLinks → Shares → ℕ → ℕ → Option ℕ → ℕ × (ShareLinks × Shares)
alloc_freed m team ws size none = alloc_chunk m team ws size
alloc_freed m team ws size (some f) = alloc_before m team ws size f (m.next_free f)

-- `alloc_work_share`; `ws` is the address that gomp_malloc gives.
pub alloc_work_share : ShareLinks → Shares → ℕ → ℕ → ℕ × (ShareLinks × Shares)
alloc_work_share m team ws size = elim (team.work_share_list_alloc) [
  | some a ↦ (a, (m, record team { work_share_list_alloc = m.next_free a }))
  | none ↦ alloc_freed m team ws size team.work_share_list_free
]

-- What the attempts of `free_work_share` that fail write: `reads` is what each of them has read.
pub free_attempts : ShareLinks → ℕ → List (Option ℕ) → ShareLinks
free_attempts m ws [] = m
free_attempts m ws (next_ws ∷ reads) = free_attempts (set_next_free m ws next_ws) ws reads

-- `free_work_share` in a team, when the attempt after `reads` finds the list as it is.
pub free_work_share : ShareLinks → Shares → List (Option ℕ) → ℕ → ShareLinks × Shares
unfolding free_attempts
free_work_share m team reads ws = (
  set_next_free (free_attempts m ws reads) ws team.work_share_list_free,
  record team { work_share_list_free = some ws },
)
