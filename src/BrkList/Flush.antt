-- ===== src/BrkList/Flush.antt =====
-- What flush_brk_list does to a list with an expired link, and to one without.
use aodv_android.Base.{ℕ, ◌≡◌, refl, true, false, Option, none, some, List, [], ◌∷◌, ◌++◌, All}
use aodv_android.Kernel.{Kernel, before}
use aodv_android.RouteTable.{is_invalid}
use aodv_android.BrkList.{BrkLink, expire_brk_link, flush_brk_list, cons_link}

module _ ⦃k : Kernel⦄ (now : ℕ) where
  abbrev pub Lives : BrkLink → Type 0
  Lives b = before b.lifetime now ≡ false

  abbrev pub after_all : List BrkLink → Option (List BrkLink) → Option (List BrkLink)
  after_all [] r = r
  after_all (b ∷ bs) r = cons_link b (after_all bs r)

  flush-cons :
      (b : BrkLink) (bs : List BrkLink)
      → Lives b
      → flush_brk_list now (b ∷ bs) ≡ cons_link b (flush_brk_list now bs)
  unfolding flush_brk_list
  flush-cons b [] h = rw h
  flush-cons b (c ∷ []) h = rw h
  flush-cons b (c ∷ d ∷ rest) h = rw h

  flush-append :
      (front rest : List BrkLink)
      → All Lives front
      → flush_brk_list now (front ++ rest) ≡ after_all front (flush_brk_list now rest)
  flush-append [] rest h = refl
  flush-append (b ∷ bs) rest h = rw (flush-cons b (bs ++ rest) h.0, flush-append bs rest h.1)

  after_all-some : (front rest : List BrkLink) → after_all front (some rest) ≡ some (front ++ rest)
  after_all-some [] rest = refl
  after_all-some (b ∷ bs) rest = rw (after_all-some bs rest)

  after_all-none : (front : List BrkLink) → after_all front none ≡ none
  after_all-none [] = refl
  after_all-none (b ∷ bs) = rw (after_all-none bs)

  pub flush-Lives : (links : List BrkLink) → All Lives links → flush_brk_list now links ≡ some links
  unfolding flush_brk_list
  flush-Lives [] h = refl
  flush-Lives (b ∷ bs) h = rw (flush-cons b bs h.0, flush-Lives bs h.1)

  -- For a list whose first expired link is still marked valid, and in which no link behind the two that
  -- follow it has expired: with at most one link behind it flush_brk_list reads through NULL. With two or more it drops the link directly
  -- behind, whatever its time, and keeps the next one unseen, whatever its time.
  pub flush_brk_list-active :
      (front : List BrkLink) (dead behind next : BrkLink) (rest : List BrkLink)
      → All Lives front
      → before dead.lifetime now ≡ true
      → is_invalid dead.state ≡ false
      → All Lives rest
      → (flush_brk_list now (front ++ dead ∷ []) ≡ none)
        × (flush_brk_list now (front ++ dead ∷ behind ∷ []) ≡ none)
        × (flush_brk_list now (front ++ dead ∷ behind ∷ next ∷ rest)
            ≡ some (front ++ expire_brk_link now dead ∷ next ∷ rest))
  unfolding flush_brk_list
  flush_brk_list-active front dead behind next rest h e s hr = (
    rw (flush-append front (dead ∷ []) h, e) (after_all-none front),
    rw (flush-append front (dead ∷ behind ∷ []) h, e, s) (after_all-none front),
    rw (flush-append front (dead ∷ behind ∷ next ∷ rest) h, e, s, flush-Lives rest hr)
        (after_all-some front (expire_brk_link now dead ∷ next ∷ rest)),
  )

  flush-invalid :
      (dead next : BrkLink) (rest : List BrkLink)
      → before dead.lifetime now ≡ true
      → is_invalid dead.state ≡ true
      → All Lives rest
      → flush_brk_list now (dead ∷ next ∷ rest) ≡ some (next ∷ rest)
  unfolding flush_brk_list
  flush-invalid dead next [] e s h = rw (e, s)
  flush-invalid dead next (d ∷ r) e s h = rw (e, s, flush-Lives (d ∷ r) h)

  -- flush_brk_list leaves a list in which no link has expired as it is. Where the first expired
  -- link is already marked invalid, and no link behind the one that follows it has expired, it is removed if a link stands behind it, and that link is kept
  -- whatever its time; and the walk reads through NULL if the expired link was the last one.
  pub flush_brk_list-invalid :
      (front : List BrkLink) (dead next : BrkLink) (rest : List BrkLink)
      → All Lives front
      → before dead.lifetime now ≡ true
      → is_invalid dead.state ≡ true
      → All Lives rest
      → (flush_brk_list now front ≡ some front)
        × (flush_brk_list now (front ++ dead ∷ []) ≡ none)
        × (flush_brk_list now (front ++ dead ∷ next ∷ rest) ≡ some (front ++ next ∷ rest))
  unfolding flush_brk_list
  flush_brk_list-invalid front dead next rest h e s hr = (
    flush-Lives front h,
    rw (flush-append front (dead ∷ []) h, e) (after_all-none front),
    rw (flush-append front (dead ∷ next ∷ rest) h, flush-invalid dead next rest e s hr)
        (after_all-some front (next ∷ rest)),
  )
