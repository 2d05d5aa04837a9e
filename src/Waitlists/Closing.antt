-- ===== src/Waitlists/Closing.antt =====
-- WaitlistService._close_waiting: the rows that a round over a page of 100 leaves.
use event_platform_backend.Prelude.{
  ℕ, ◌≡◌, ◌≤◌, ◌<◌, ◌∙◌, refl, subst, ◌==◌, ◌⊎◌, Bool, Bool-cases, inl, inr, true, false, Option,
  none, some, List, [], ◌∷◌, arith, if◌then◌else◌, select, count_where, take, length, All,
}
use event_platform_backend.Models.Waitlists.{WaitlistEntry}
use event_platform_backend.Store.{waitlist_entry_key}
use event_platform_backend.Table.{get, update, IsKeyed}
use event_platform_backend.Table.Laws.{on_some, get-update, update-IsKeyed, count_where-update}
use event_platform_backend.Table.Keys.{
  Selected, has_key, select-Selected, has_key-select, count_where-zero, All-take, take_short,
}
use event_platform_backend.Waitlists.Repository.{matches, sort_fifo}
use event_platform_backend.Waitlists.Service.{close, waiting_of}
use event_platform_backend.Waitlists.Fifo.{All-sort_fifo, has_key-sort_fifo}

-- What closing does to the row under a key: a waiting entry of the event is closed.
abbrev pub closed_row : ℕ → Option WaitlistEntry → Option WaitlistEntry
closed_row event_id none = none
closed_row event_id (some e) = some (if matches (waiting_of event_id) e then close e else e)

unfoldable pub close_page_rows : List WaitlistEntry → List WaitlistEntry → List WaitlistEntry
close_page_rows [] t = t
close_page_rows (e ∷ es) t = close_page_rows es (update e.id close t)

pub close_page-IsKeyed : (es t : List WaitlistEntry) → IsKeyed t → IsKeyed (close_page_rows es t)
unfolding close_page_rows
close_page-IsKeyed [] t v = v
close_page-IsKeyed (e ∷ es) t v =
    close_page-IsKeyed es (update e.id close t) (update-IsKeyed e.id close t (λ x. refl) v)

-- The rows of the page are closed, the others are not touched.
get-close_page :
    (i : ℕ) (es t : List WaitlistEntry)
    → get i (close_page_rows es t) ≡ (if has_key i es then on_some close (get i t) else get i t)
unfolding close_page_rows
get-close_page i [] t = refl
get-close_page i (e ∷ es) t =
    ground (arith, get-close_page i es (update e.id close t), get-update i e.id close t (λ x. refl))

module _ (event_id : ℕ) where
  abbrev pub p : WaitlistEntry → Bool
  p = matches (waiting_of event_id)

  closed_unmatched : (e : WaitlistEntry) → p (close e) ≡ false
  closed_unmatched e = ground arith

  page_matched :
      (i : ℕ) (es t : List WaitlistEntry)
      → All (Selected p t) es
      → has_key i es ≡ true
      → (e : WaitlistEntry) × (get i t ≡ some e) × (p e ≡ true)
  page_matched i [] t h q = absurd (cc q)
  page_matched i (e ∷ es) t h q = elim (Bool-cases (e.id == i)) [
    | inl here ↦
        let same : e.id ≡ i = ground arith in
        (e, subst (λ j. get j t ≡ some e) same h.0.stored, h.0.meets)
    | inr there ↦ page_matched i es t h.1 (ground arith)
  ]

  -- A page of matched rows leaves what closing does to each row.
  pub closed_row-page :
      (i : ℕ) (es t : List WaitlistEntry)
      → All (Selected p t) es
      → closed_row event_id (get i (close_page_rows es t)) ≡ closed_row event_id (get i t)
  closed_row-page i es t h = elim (Bool-cases (has_key i es)) [
    | inl on ↦
        let (e, g, m) = page_matched i es t h on in
        ground (arith, get-close_page i es t, closed_unmatched e)
    | inr off ↦ ground (arith, get-close_page i es t)
  ]

  -- What still waits after a round waited before it.
  pub open_before :
      (es t : List WaitlistEntry) (e : WaitlistEntry)
      → Selected p (close_page_rows es t) e
      → Selected p t e
  open_before es t e h = record { stored = came_from (get e.id t) refl; meets = h.meets }
    where
      came_from : (o : Option WaitlistEntry) → get e.id t ≡ o → get e.id t ≡ some e
      came_from none g = ground (arith, get-close_page e.id es t, h.stored)
      came_from (some y) g =
          ground (arith, get-close_page e.id es t, h.stored, h.meets, closed_unmatched y)

  count-close :
      (i : ℕ) (t : List WaitlistEntry) → count_where p (update i close t) ≤ count_where p t
  count-close i [] = omega arith
  count-close i (x ∷ t) = ground (arith, count-close i t, closed_unmatched x)

  count-close_page :
      (es t : List WaitlistEntry) → count_where p (close_page_rows es t) ≤ count_where p t
  unfolding close_page_rows
  count-close_page [] t = omega arith
  count-close_page (e ∷ es) t =
      omega (arith, count-close_page es (update e.id close t), count-close e.id t)

  -- A round that closes anything leaves fewer to close.
  pub count-close_page_lt :
      (e : WaitlistEntry) (es t : List WaitlistEntry)
      → IsKeyed t
      → Selected p t e
      → count_where p (close_page_rows (e ∷ es) t) < count_where p t
  unfolding close_page_rows
  count-close_page_lt e es t v c = ground (
    arith,
    count_where-update p e.id close t {e = e} v c.stored,
    closed_unmatched e,
    c.meets,
    count-close_page es (update e.id close t),
  )

  unfoldable pub page_of : List WaitlistEntry → List WaitlistEntry
  page_of t = take 100 (sort_fifo (select p t))

  pub page_of-Selected : (t : List WaitlistEntry) → IsKeyed t → All (Selected p t) (page_of t)
  unfolding page_of
  page_of-Selected t v =
      All-take (Selected p t) 100 (sort_fifo (select p t))
        (All-sort_fifo (Selected p t) (select p t) (select-Selected p t v))

  -- A page that is not full holds every matched row.
  short_page :
      (t : List WaitlistEntry) (i : ℕ) (x : WaitlistEntry)
      → length (page_of t) < 100
      → get i t ≡ some x
      → p x ≡ true
      → has_key i (page_of t) ≡ true
  unfolding page_of
  short_page t i x short g m =
      rw (take_short 100 (sort_fifo (select p t)) short)
        (has_key-sort_fifo i (select p t) ∙ has_key-select p i t x g m)

  -- After it none is left.
  pub count-short_page :
      (t : List WaitlistEntry)
      → IsKeyed t
      → length (page_of t) < 100
      → count_where p (close_page_rows (page_of t) t) ≡ 0
  count-short_page t v short =
      count_where-zero p (close_page_rows (page_of t) t) (close_page-IsKeyed (page_of t) t v)
        λ i x g. left_open i x g (Bool-cases (has_key i (page_of t)))
    where
      left_open :
          (i : ℕ) (x : WaitlistEntry)
          → get i (close_page_rows (page_of t) t) ≡ some x
          → (has_key i (page_of t) ≡ true) ⊎ (has_key i (page_of t) ≡ false)
          → p x ≡ false
      left_open i x g (inl on) =
          let (e, found, m) = page_matched i (page_of t) t (page_of-Selected t v) on in
          ground (arith, get-close_page i (page_of t) t, closed_unmatched e)
      left_open i x g (inr off) = elim (Bool-cases (p x)) [
        | inl m ↦
            let found : get i t ≡ some x = ground (arith, get-close_page i (page_of t) t) in
            ground (arith, short_page t i x short found m)
        | inr n ↦ n
      ]

  -- Where nothing is matched, closing changes no row.
  pub closed_row-none :
      (i : ℕ) (t : List WaitlistEntry)
      → count_where p t ≡ 0
      → closed_row event_id (get i t) ≡ get i t
  closed_row-none i [] h = refl
  closed_row-none i (x ∷ t) h = ground (arith, closed_row-none i t)
