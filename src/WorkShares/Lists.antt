-- ===== src/WorkShares/Lists.antt =====
-- The two lists of free work shares.
use ulmt_open_mp_gcc.Base.{
  ℕ, zero, suc, ◌+◌, ◌*◌, ◌%◌, ◌<◌, ◌≡◌, refl, sym, ap, subst, ◌∙◌, Option, none, some, update,
  arith, List, [], ◌∷◌, ◌++◌, NotIn, NotIn-left, NotIn-right, NotIn-append, Distinct,
  Distinct-append, Distinct-middle, Distinct-swap, Disjoint, Disjoint-symm, ==_refl, ==_ne, All-map,
}
use ulmt_open_mp_gcc.StatePool.Linked.{IsLinked, IsLinked-frame, IsLinked-same}
use ulmt_open_mp_gcc.StatePool.Walk.{block, block-Distinct}
use ulmt_open_mp_gcc.WorkShares.{
  ShareLinks, Shares, set_next_free, link_free, alloc_chunk, alloc_before, alloc_freed,
  alloc_work_share, free_attempts, free_work_share,
}

-- The list to allocate from has the work shares `xs`, the one of the freed ones `ys`.
pub record HasShares (m : ShareLinks) (team : Shares) (xs ys : List ℕ) : Type 0 where
  pub to_alloc : IsLinked m.next_free team.work_share_list_alloc xs
  pub freed : IsLinked m.next_free team.work_share_list_free ys
  pub distinct : Distinct (xs ++ ys)

-- How many work shares are allocated behind a second one, and all that are behind the first one.
abbrev pub more_of : ℕ → ℕ
more_of chunk = ((chunk * 2) % 4294967296 + 4294967294) % 4294967296

abbrev pub rest_of : ℕ → ℕ → ℕ → List ℕ
rest_of chunk ws size = block (ws + size) size (suc (more_of chunk))

-- What a call gives, and what it leaves in the two lists.
abbrev pub choice : List ℕ → List ℕ → ℕ → ℕ → ℕ → ℕ × List ℕ × List ℕ
choice (x ∷ xs) ys chunk ws size = (x, xs, ys)
choice [] [] chunk ws size = (ws, rest_of chunk ws size, [])
choice [] (f ∷ []) chunk ws size = (ws, rest_of chunk ws size, f ∷ [])
choice [] (f ∷ next ∷ ys) chunk ws size = (next, ys, f ∷ [])

link_free-other :
    (more : ℕ) (m : ShareLinks) (ws size a : ℕ)
    → NotIn a (block ws size (suc more))
    → (link_free m ws size more).next_free a ≡ m.next_free a
unfolding link_free
link_free-other zero m ws size a n = rw (==_ne ws a (λ e. n.0 (sym e))) refl
link_free-other (suc more) m ws size a n =
    link_free-other more (set_next_free m ws (some (ws + size))) (ws + size) size a n.1
    ∙ rw (==_ne ws a (λ e. n.0 (sym e))) refl

link_free-IsLinked :
    (more : ℕ) (m : ShareLinks) (ws size : ℕ)
    → 0 < size
    → IsLinked (link_free m ws size more).next_free (some ws) (block ws size (suc more))
unfolding link_free
link_free-IsLinked zero m ws size h = (refl, rw (==_refl ws) refl)
link_free-IsLinked (suc more) m ws size h =
    let m' = set_next_free m ws (some (ws + size)) in
    let here : (link_free m' (ws + size) size more).next_free ws ≡ some (ws + size) =
      link_free-other more m' (ws + size) size ws ((block-Distinct ws size (suc (suc more)) h).0)
      ∙ rw (==_refl ws) refl in
    (
      refl,
      subst
          (λ q.
            IsLinked (link_free m' (ws + size) size more).next_free q
              (block (ws + size) size (suc more)))
          (sym here) (link_free-IsLinked more m' (ws + size) size h),
    )

abbrev pub Allocated : ℕ × (ShareLinks × Shares) → ℕ × List ℕ × List ℕ → Type 0
Allocated (ws, (m, team)) (given, xs, ys) =
    (ws ≡ given) × (HasShares m team xs ys × NotIn given (xs ++ ys))

chunk-Allocated :
    (m : ShareLinks) (team : Shares) (ys : List ℕ) (ws size : ℕ)
    → 0 < size
    → Disjoint (ws ∷ rest_of team.work_share_chunk ws size) ys
    → HasShares m team [] ys
    → Allocated (alloc_chunk m team ws size) (ws, rest_of team.work_share_chunk ws size, ys)
unfolding alloc_chunk
chunk-Allocated m team ys ws size h f v =
    let more = more_of team.work_share_chunk in
    let m₁ : ShareLinks = record m {
      next_alloc =
          update (update m.next_alloc ws (m.next_alloc team.work_shares)) team.work_shares
            (some ws);
    } in
    let away = Disjoint-symm (rest_of team.work_share_chunk ws size) ys f.1 in
    (
      refl,
      (
        record {
          to_alloc = link_free-IsLinked more m₁ (ws + size) size h;
          freed =
              IsLinked-same m.next_free (link_free m₁ (ws + size) size more).next_free
                team.work_share_list_free ys
                (All-map (λ x n. link_free-other more m₁ (ws + size) size x n) ys away) v.freed;
          distinct =
              Distinct-append (rest_of team.work_share_chunk ws size) ys
                (block-Distinct (ws + size) size (suc more) h) v.distinct f.1;
        },
        NotIn-append ws (rest_of team.work_share_chunk ws size) ys
            ((block-Distinct ws size (suc (suc more)) h).0) f.0,
      ),
    )

-- The four ways through `alloc_work_share`.
module _ (m : ShareLinks) (team : Shares) (ws size : ℕ)
    (none_left : team.work_share_list_alloc ≡ none) where
  to_freed : alloc_work_share m team ws size ≡ alloc_freed m team ws size team.work_share_list_free
  unfolding alloc_work_share
  to_freed =
      subst
        (λ o.
          (elim o as (λ x. ℕ × (ShareLinks × Shares)) [
            | some a ↦ (a, (m, record team { work_share_list_alloc = m.next_free a }))
            | none ↦ alloc_freed m team ws size team.work_share_list_free
          ])
          ≡ alloc_freed m team ws size team.work_share_list_free)
        (sym none_left) refl

  none_freed :
      team.work_share_list_free ≡ none
      → alloc_work_share m team ws size ≡ alloc_chunk m team ws size
  none_freed e = to_freed ∙ ap (λ o. alloc_freed m team ws size o) e

  one_freed :
      (f : ℕ)
      → team.work_share_list_free ≡ some f
      → m.next_free f ≡ none
      → alloc_work_share m team ws size ≡ alloc_chunk m team ws size
  one_freed f e g =
      to_freed
      ∙ ap (λ o. alloc_freed m team ws size o) e
      ∙ ap (λ o. alloc_before m team ws size f o) g

  two_freed :
      (f next : ℕ)
      → team.work_share_list_free ≡ some f
      → m.next_free f ≡ some next
      → alloc_work_share m team ws size
        ≡ (next, (set_next_free m f none, record team { work_share_list_alloc = m.next_free next }))
  two_freed f next e g =
      to_freed
      ∙ ap (λ o. alloc_freed m team ws size o) e
      ∙ ap (λ o. alloc_before m team ws size f o) g

some_left :
    (m : ShareLinks) (team : Shares) (ws size a : ℕ)
    → team.work_share_list_alloc ≡ some a
    → alloc_work_share m team ws size
      ≡ (a, (m, record team { work_share_list_alloc = m.next_free a }))
unfolding alloc_work_share
some_left m team ws size a e = rw (e, alloc_work_share) refl

-- `alloc_work_share`: the first of the work shares to allocate from is given. When there is none, the
-- second one freed is, the work shares freed before it are the next to allocate from, and the one freed
-- last stays; with less than two freed ones, those of a new chunk are. No work share is in both lists
-- or twice in one, and the one given is in none.
pub alloc_work_share-Allocated :
    (m : ShareLinks) (team : Shares) (xs ys : List ℕ) (ws size : ℕ)
    → 0 < size
    → Disjoint (ws ∷ rest_of team.work_share_chunk ws size) ys
    → HasShares m team xs ys
    → Allocated (alloc_work_share m team ws size) (choice xs ys team.work_share_chunk ws size)
alloc_work_share-Allocated m team (x ∷ xs) ys ws size h f v =
    subst (λ r. Allocated r (x, xs, ys)) (sym (some_left m team ws size x (v.to_alloc.0)))
      (
        refl,
        (
          record { to_alloc = v.to_alloc.1; freed = v.freed; distinct = v.distinct.1 },
          v.distinct.0,
        ),
      )
alloc_work_share-Allocated m team [] [] ws size h f v =
    subst (λ r. Allocated r (ws, rest_of team.work_share_chunk ws size, []))
      (sym (none_freed m team ws size (v.to_alloc) (v.freed)))
      (chunk-Allocated m team [] ws size h f v)
alloc_work_share-Allocated m team [] (y ∷ []) ws size h f v =
    subst (λ r. Allocated r (ws, rest_of team.work_share_chunk ws size, y ∷ []))
      (sym (one_freed m team ws size (v.to_alloc) y (v.freed.0) (v.freed.1)))
      (chunk-Allocated m team (y ∷ []) ws size h f v)
alloc_work_share-Allocated m team [] (y ∷ next ∷ ys) ws size h f v =
    subst (λ r. Allocated r (next, ys, y ∷ []))
      (sym (two_freed m team ws size (v.to_alloc) y next (v.freed.0) (v.freed.1.0)))
      (
        refl,
        (
          record {
            to_alloc =
                IsLinked-frame m.next_free y none (m.next_free next) ys v.distinct.0.1 v.freed.1.1;
            freed = (v.freed.0, ground (arith, ==_refl y));
            distinct = Distinct-swap (y ∷ []) ys (v.distinct.0.1, v.distinct.1.1);
          },
          NotIn-append next ys (y ∷ []) v.distinct.1.0 ((λ e. v.distinct.0.0 (sym e)), tt),
        ),
      )

attempts-IsLinked :
    (reads : List (Option ℕ)) (m : ShareLinks) (ws : ℕ) (p : Option ℕ) (xs : List ℕ)
    → NotIn ws xs
    → IsLinked m.next_free p xs
    → IsLinked (free_attempts m ws reads).next_free p xs
unfolding free_attempts
attempts-IsLinked [] m ws p xs f h = h
attempts-IsLinked (r ∷ reads) m ws p xs f h =
    attempts-IsLinked reads (set_next_free m ws r) ws p xs f
      (IsLinked-frame m.next_free ws r p xs f h)

-- `free_work_share` of a work share that is in no list puts it in front of the freed ones, whatever the
-- attempts before have read and written; the others stay.
pub free_work_share-HasShares :
    (m : ShareLinks) (team : Shares) (xs ys : List ℕ) (reads : List (Option ℕ)) (ws : ℕ)
    → NotIn ws (xs ++ ys)
    → HasShares m team xs ys
    → let (m', team') = free_work_share m team reads ws in HasShares m' team' xs (ws ∷ ys)
unfolding free_work_share
free_work_share-HasShares m team xs ys reads ws f v =
    let m₁ = free_attempts m ws reads in
    let q = team.work_share_list_free in
    let m₂ = set_next_free m₁ ws q in
    let here : m₂.next_free ws ≡ q = rw (==_refl ws) refl in
    let kept = attempts-IsLinked reads m ws q ys (NotIn-right ws xs ys f) v.freed in
    record {
      to_alloc =
          IsLinked-frame m₁.next_free ws q team.work_share_list_alloc xs (NotIn-left ws xs ys f) (
            attempts-IsLinked reads m ws team.work_share_list_alloc xs (NotIn-left ws xs ys f)
              v.to_alloc);
      freed = (
        refl,
        subst (λ z. IsLinked m₂.next_free z ys) (sym here)
            (IsLinked-frame m₁.next_free ws q q ys (NotIn-right ws xs ys f) kept),
      );
      distinct = Distinct-middle ws xs ys v.distinct f;
    }
