-- ===== src/Delta/Compose.antt =====
-- The pieces that `Create` assembles: offsets, ranges of the base's map, and whole segment lists.
use mathlib.Core.Path.{ap₂}
use vidya_god_fs.Prelude.{
  ℕ, ◌+◌, ◌-◌, ◌≤◌, ◌<◌, ◌^◌, ◌≡◌, refl, sym, ap, ◌∙◌, arith, false, List, [], ◌∷◌, ◌++◌, inl, inr,
  length, take, drop, ltb, leb, ltb→lt, lt→ltb, le→ltb, ◌||◌, if◌then◌else◌, Bool-cases,
  length-append, take_all, drop_all, take_cong, drop_cong, last_piece, next_piece, append_assoc,
  append-nil,
}
use vidya_god_fs.Bytes.{add64, add64-eq}
use vidya_god_fs.Delta.Types.{FlatSeg, Outcome, done, ◌>>=◌}
use vidya_god_fs.Delta.Flat.{sub64, compose_range, set_offsets}
use vidya_god_fs.Delta.Content.{source_of, seg_bytes, content, SegFits, SegsLaid, length-seg_bytes}
use vidya_god_fs.Delta.Read.Exact.{sub64-eq, seg-slice}

module _ (base : List ℕ) (lits : List (List ℕ)) where
  abbrev pub AllFit : List FlatSeg → Type 0
  AllFit [] = Unit
  AllFit (s ∷ segs) = SegFits base lits s × AllFit segs

  pub AllFit-append : (xs ys : List FlatSeg) → AllFit xs → AllFit ys → AllFit (xs ++ ys)
  AllFit-append [] ys h k = k
  AllFit-append (s ∷ xs) ys (f, h) k = (f, AllFit-append xs ys h k)

  pub content-append :
      (xs ys : List FlatSeg)
      → content base lits (xs ++ ys) ≡ content base lits xs ++ content base lits ys
  content-append [] ys = refl
  content-append (s ∷ xs) ys =
      ap (λ t. seg_bytes base lits s ++ t) (content-append xs ys)
      ∙ sym (append_assoc (seg_bytes base lits s) (content base lits xs) (content base lits ys))

  -- The offsets that the last loop of `Create` gives lay the segments gap-free.
  pub set_offsets-SegsLaid :
      (t : ℕ) (segs : List FlatSeg)
      → AllFit segs
      → t + length (content base lits segs) < 2 ^ 64
      → SegsLaid base lits t (set_offsets t segs).0
        × ((set_offsets t segs).1 ≡ t + length (content base lits segs))
        × (content base lits (set_offsets t segs).0 ≡ content base lits segs)
  unfolding set_offsets
  set_offsets-SegsLaid t [] h small = (tt, omega arith, refl)
  set_offsets-SegsLaid t (s ∷ segs) (f, h) small =
      let len : length (content base lits (s ∷ segs)) ≡ s.len + length (content base lits segs) =
        omega (
          arith,
          length-append (seg_bytes base lits s) (content base lits segs),
          length-seg_bytes base lits s f,
        ) in
      let (laid, total, bytes) = set_offsets-SegsLaid (t + s.len) segs h (omega (arith, len)) in
      rw (add64-eq t s.len (omega (arith, len))) (
        (refl, record { some_len = f.some_len; in_range = f.in_range }, laid),
        omega (arith, total, len),
        ap (λ l. seg_bytes base lits s ++ l) bytes,
      )

  -- What a range of the base's map becomes.
  pub record Pieces (r : Outcome (List FlatSeg)) (bytes : List ℕ) : Type 0 where
    pub pieces : List FlatSeg
    pub composed : r ≡ done pieces
    pub fit : AllFit pieces
    pub same_bytes : content base lits pieces ≡ bytes

  abbrev pub InHead : ℕ → ℕ → List FlatSeg → Type 0
  InHead t m [] = Unit
  InHead t m (s ∷ segs) = m < t + s.len

  range_end : (segs : List FlatSeg) (m rem : ℕ) → rem ≡ 0 → compose_range segs m rem ≡ done []
  unfolding compose_range
  range_end [] m rem e = rw (le→ltb 0 rem (omega arith))
  range_end (s ∷ segs) m rem e = rw (le→ltb 0 rem (omega arith))

  -- The piece that one segment of the base contributes.
  abbrev piece : FlatSeg → ℕ → ℕ → FlatSeg
  piece bs m k = record {
    target_off = 0;
    len = k;
    src_off = add64 bs.src_off (sub64 m bs.target_off);
    add_src = bs.add_src;
    kind = bs.kind;
  }

  range_step :
      (bs : FlatSeg) (rest : List FlatSeg) (m rem k : ℕ)
      → 0 < rem
      → bs.target_off ≤ m
      → m < bs.target_off + bs.len
      → bs.target_off + bs.len < 2 ^ 64
      → m + rem < 2 ^ 64
      → k ≡ (if ltb (m + rem) (bs.target_off + bs.len) then m + rem else bs.target_off + bs.len) - m
      → compose_range (bs ∷ rest) m rem
        ≡ (compose_range rest (add64 m k) (sub64 rem k) >>= λ pieces. done (piece bs m k ∷ pieces))
  unfolding compose_range
  range_step bs rest m rem k pos starts inside small fits at =
      rw (lt→ltb 0 rem pos, add64-eq bs.target_off bs.len small, add64-eq m rem fits, no_gap)
        (ap
          (λ (t : ℕ).
            compose_range rest (add64 m t) (sub64 rem t) >>= λ pieces. done (piece bs m t ∷ pieces))
          whole)
    where
      no_gap : (ltb m bs.target_off || leb (bs.target_off + bs.len) m) ≡ false
      no_gap = ground arith

      whole :
          sub64
            (if ltb (m + rem) (bs.target_off + bs.len) then m + rem else bs.target_off + bs.len)
            m
          ≡ k
      whole = sub64-eq _ m (ground arith) (ground arith) ∙ sym at

  InHead-start : (t : ℕ) (segs : List FlatSeg) → SegsLaid base lits t segs → InHead t t segs
  InHead-start t [] h = tt
  InHead-start t (s ∷ segs) (e, f, h) = omega (arith, f.some_len)

  module _ (sources_fit : (s : FlatSeg) → length (source_of base lits s) < 2 ^ 64) where
    piece-fits :
        (bs : FlatSeg) (m k : ℕ)
        → SegFits base lits bs
        → bs.target_off ≤ m
        → 0 < k
        → m + k ≤ bs.target_off + bs.len
        → bs.target_off + bs.len < 2 ^ 64
        → SegFits base lits (piece bs m k)
          × (seg_bytes base lits (piece bs m k)
              ≡ take k (drop (m - bs.target_off) (seg_bytes base lits bs)))
    piece-fits bs m k f starts pos ends small = (
      record { some_len = pos; in_range = omega (arith, at, f.in_range) },
      ap (λ (o : ℕ). take k (drop o (source_of base lits bs))) at
          ∙ sym (seg-slice base lits bs (m - bs.target_off) k (omega arith)),
    )
      where
        at : add64 bs.src_off (sub64 m bs.target_off) ≡ bs.src_off + (m - bs.target_off)
        at =
            omega (arith, sub64-eq m bs.target_off starts (omega arith), sources_fit bs, f.in_range)

    -- The range `[m, m + rem)` of a map becomes pieces with the same bytes.
    pub compose_range-Pieces :
        (segs : List FlatSeg) (t m rem : ℕ)
        → SegsLaid base lits t segs
        → t + length (content base lits segs) < 2 ^ 64
        → t ≤ m
        → InHead t m segs
        → m + rem ≤ t + length (content base lits segs)
        → Pieces (compose_range segs m rem) (take rem (drop (m - t) (content base lits segs)))
    compose_range-Pieces [] t m rem laid small starts inside range = record {
      pieces = [];
      composed = range_end [] m rem (omega arith);
      fit = tt;
      same_bytes =
          sym (ap (take rem) (drop_all (m - t) [] (omega arith)) ∙ take_all rem [] (omega arith));
    }
    compose_range-Pieces (bs ∷ rest) t m rem (e, f, laid) small starts inside range =
        elim (Bool-cases (ltb 0 rem)) [
          | inr nothing ↦ record {
            pieces = [];
            composed = range_end (bs ∷ rest) m rem (ground arith);
            fit = tt;
            same_bytes =
                sym (take_cong rem 0 (drop (m - t) (content base lits (bs ∷ rest))) (ground arith));
          }
          | inl some_left ↦ elim (Bool-cases (ltb (m + rem) (bs.target_off + bs.len))) [
            | inl last ↦
                let (fits, bytes) =
                  piece-fits bs m rem f (omega arith) (ltb→lt _ _ some_left) (ground arith)
                    bounded in
                record {
                  pieces = piece bs m rem ∷ [];
                  composed =
                      range_step bs rest m rem rem (ltb→lt _ _ some_left) (omega arith)
                        (omega arith) bounded (omega arith) (ground arith)
                      ∙ ap (λ r. r >>= λ ps. done (piece bs m rem ∷ ps))
                          (range_end rest (add64 m rem) (sub64 rem rem)
                            (sub64-eq rem rem (omega arith) (omega arith) ∙ omega arith));
                  fit = (fits, tt);
                  same_bytes =
                      append-nil (seg_bytes base lits (piece bs m rem))
                      ∙ bytes
                      ∙ last_piece (seg_bytes base lits bs) (content base lits rest) []
                          (m - bs.target_off) rem (ground (arith, sb_len))
                      ∙ at_t rem;
                }
            | inr goes_on ↦
                let k : ℕ = bs.target_off + bs.len - m in
                let (fits, bytes) =
                  piece-fits bs m k f (omega arith) (omega arith) (omega arith) bounded in
                let p =
                  compose_range-Pieces rest (t + bs.len) (t + bs.len) (rem - k) laid
                    (omega (arith, whole_len)) (omega arith) (InHead-start (t + bs.len) rest laid)
                    (ground (arith, whole_len)) in
                record {
                  pieces = piece bs m k ∷ p.pieces;
                  composed =
                      range_step bs rest m rem k (ltb→lt _ _ some_left) (omega arith) (omega arith)
                        bounded (omega arith) (ground arith)
                      ∙ ap (λ r. r >>= λ ps. done (piece bs m k ∷ ps))
                          (ap₂ (λ a b. compose_range rest a b)
                              (add64-eq m k (omega (arith, bounded)) ∙ omega arith)
                              (sub64-eq rem k (ground arith) (omega arith))
                            ∙ p.composed);
                  fit = (fits, p.fit);
                  same_bytes =
                      ap₂ (λ a b. a ++ b) bytes
                        (p.same_bytes
                          ∙ ap (take (rem - k)) (
                              drop_cong (t + bs.len - (t + bs.len)) 0 (content base lits rest)
                                (omega arith)))
                      ∙ next_piece (seg_bytes base lits bs) (content base lits rest) []
                          (m - bs.target_off) k rem (omega (arith, sb_len)) (ground arith)
                      ∙ at_t rem;
                }
          ]
        ]
      where
        sb_len : length (seg_bytes base lits bs) ≡ bs.len
        sb_len = length-seg_bytes base lits bs f

        whole_len :
            length (content base lits (bs ∷ rest)) ≡ bs.len + length (content base lits rest)
        whole_len =
            omega (arith, sb_len, length-append (seg_bytes base lits bs) (content base lits rest))

        bounded : bs.target_off + bs.len < 2 ^ 64
        bounded = omega (arith, whole_len)

        at_t :
            (w : ℕ)
            → take w (drop (m - bs.target_off) (content base lits (bs ∷ rest)))
              ≡ take w (drop (m - t) (content base lits (bs ∷ rest)))
        at_t w =
            ap (take w)
              (drop_cong (m - bs.target_off) (m - t) (content base lits (bs ∷ rest)) (omega arith))
