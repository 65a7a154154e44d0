-- ===== src/Delta/Locate.antt =====
-- `SegAt` of src/vgdelta.cpp: which segment it finds.
use mathlib.Core.Path.{subst}
use vidya_god_fs.Prelude.{
  ℕ, suc, ◌+◌, ◌-◌, ◌≤◌, ◌<◌, ◌≡◌, refl, sym, ap, ◌∙◌, arith, List, [], ◌∷◌, length, drop, ltb,
  ltb→lt, le→ltb, lt→ltb, Bool-cases, inl, inr, length-append, drop-append_ge,
}
use vidya_god_fs.Delta.Types.{FlatSeg}
use vidya_god_fs.Delta.Flat.{upper_bound, seg_at}
use vidya_god_fs.Delta.Content.{seg_bytes, content, SegsLaid, length-seg_bytes}

-- `off` lies in the first of the segments, which start at `t`.
abbrev pub HeadCovers : ℕ → ℕ → List FlatSeg → Type 0
HeadCovers t off [] = ⊥
HeadCovers t off (s ∷ segs) = off < t + s.len

module _ (base : List ℕ) (lits : List (List ℕ)) where
  -- From segment `i` on, the map covers `off`, and is the rest of the whole map.
  pub record Located (segs : List FlatSeg) (t off i : ℕ) : Type 0 where
    pub start : ℕ
    pub laid : SegsLaid base lits start (drop i segs)
    pub starts : start ≤ off
    pub inside : HeadCovers start off (drop i segs)
    pub view :
        drop (off - t) (content base lits segs)
        ≡ drop (off - start) (content base lits (drop i segs))
    pub total :
        start + length (content base lits (drop i segs)) ≡ t + length (content base lits segs)

  upper_bound-behind :
      (segs : List FlatSeg) (t off : ℕ)
      → SegsLaid base lits t segs
      → off < t
      → upper_bound segs off ≡ 0
  unfolding upper_bound
  upper_bound-behind [] t off laid h = refl
  upper_bound-behind (s ∷ segs) t off (e, f, laid) h = rw (lt→ltb off s.target_off (omega arith))

  upper_bound_step :
      (s : FlatSeg) (segs : List FlatSeg) (off : ℕ)
      → s.target_off ≤ off
      → upper_bound (s ∷ segs) off ≡ suc (upper_bound segs off)
  unfolding upper_bound
  upper_bound_step s segs off h = rw (le→ltb off s.target_off h)

  locate :
      (segs : List FlatSeg) (t off : ℕ)
      → SegsLaid base lits t segs
      → t ≤ off
      → off < t + length (content base lits segs)
      → (i : ℕ) × (upper_bound segs off ≡ suc i) × Located segs t off i
  locate [] t off laid le lt = absurd (omega arith)
  locate (s ∷ segs) t off (e, f, laid) le lt = elim (Bool-cases (ltb off (t + s.len))) [
    | inl here ↦ (
      0,
      upper_bound_step s segs off (omega arith)
          ∙ ap suc (upper_bound-behind segs (t + s.len) off laid (ltb→lt _ _ here)),
      record {
        start = t;
        laid = (e, f, laid);
        starts = le;
        inside = ltb→lt _ _ here;
        view = refl;
        total = refl;
      },
    )
    | inr later ↦
        let (i, at, l) =
          locate segs (t + s.len) off laid (ground arith) (omega (arith, whole_len)) in
        (suc i, upper_bound_step s segs off (omega arith) ∙ ap suc at, shift i l (ground arith))
  ]
    where
      sb_len : length (seg_bytes base lits s) ≡ s.len
      sb_len = length-seg_bytes base lits s f

      whole_len : length (content base lits (s ∷ segs)) ≡ s.len + length (content base lits segs)
      whole_len =
          omega (arith, sb_len, length-append (seg_bytes base lits s) (content base lits segs))

      shift :
          (i : ℕ)
          → Located segs (t + s.len) off i
          → t + s.len ≤ off
          → Located (s ∷ segs) t off (suc i)
      shift i l p = record {
        start = l.start;
        laid = l.laid;
        starts = l.starts;
        inside = l.inside;
        view =
            drop-append_ge (off - t) (off - (t + s.len)) (seg_bytes base lits s)
              (content base lits segs) (omega (arith, sb_len))
            ∙ l.view;
        total = omega (arith, l.total, whole_len);
      }

  -- Inside the map, `SegAt` finds the segment that covers the position.
  pub seg_at-Located :
      (segs : List FlatSeg) (off : ℕ)
      → SegsLaid base lits 0 segs
      → off < length (content base lits segs)
      → Located segs 0 off (seg_at segs off)
  seg_at-Located segs off laid lt =
      let (i, at, l) = locate segs 0 off laid (omega arith) (omega arith) in
      subst (Located segs 0 off) (sym (index i at)) l
    where
      index : (i : ℕ) → upper_bound segs off ≡ suc i → seg_at segs off ≡ i
      index i at = unfold seg_at in rw at (ground arith)
