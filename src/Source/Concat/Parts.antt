-- ===== src/Source/Concat/Parts.antt =====
-- The parts of `ConcatByteSource` of src/bytesource.h, laid out back to back.
use vidya_god_fs.Prelude.{
  ℕ, zero, suc, ◌+◌, ◌-◌, ◌≤◌, ◌<◌, ◌^◌, ◌≡◌, refl, sym, ap, ◌∙◌, arith, List, [], ◌∷◌, ◌++◌,
  Option, none, some, ok, length, take, drop, get_or, length-append, drop-append_ge, drop_cong,
  take_all, drop_all,
}
use vidya_god_fs.Bytes.{add64}
use vidya_god_fs.Source.{ByteSource, Part, null_source, concat_parts, no_part}
use vidya_god_fs.Source.Exact.{Serves, reads_full}

-- The contents of the parts, in order.
abbrev pub joined : List (List ℕ) → List ℕ
joined [] = []
joined (bs ∷ bss) = bs ++ joined bss

-- Each source serves its content; a null source stands for no bytes.
abbrev pub ServesAll : List (Option ByteSource) → List (List ℕ) → Type 0
ServesAll [] [] = Unit
ServesAll (none ∷ ss) (bs ∷ bss) = (bs ≡ []) × ServesAll ss bss
ServesAll (some s ∷ ss) (bs ∷ bss) = Serves s bs × ServesAll ss bss
ServesAll _ _ = ⊥

-- The parts lie back to back from `t` on.
abbrev pub Laid : ℕ → List Part → List (List ℕ) → Type 0
Laid t [] [] = Unit
Laid t (p ∷ ps) (bs ∷ bss) =
    (p.start ≡ t) × (p.len ≡ length bs) × Serves p.src bs × Laid (t + length bs) ps bss
Laid t _ _ = ⊥

null_source-Serves : Serves null_source []
unfolding null_source
null_source-Serves = record {
  size_eq = refl;
  fits = omega arith;
  reads = λ n off p.
      reads_full [] n off _ p
        (ap ok (sym (ap (take n) (drop_all off [] (omega arith)) ∙ take_all n [] (omega arith))));
}

pub concat_parts-Laid :
    (t : ℕ) (sources : List (Option ByteSource)) (bss : List (List ℕ))
    → ServesAll sources bss
    → t + length (joined bss) < 2 ^ 64
    → Laid t (concat_parts t sources).0 bss × ((concat_parts t sources).1 ≡ t + length (joined bss))
unfolding concat_parts
concat_parts-Laid t [] [] h fits = (tt, omega arith)
concat_parts-Laid t (none ∷ ss) (bs ∷ bss) (e, h) fits =
    let ih =
      concat_parts-Laid (t + length bs) ss bss h (omega (arith, length-append bs (joined bss))) in
    let none_left : length bs ≡ 0 = ap length e in
    let step : add64 t 0 ≡ t + length bs = omega (arith, length-append bs (joined bss)) in
    rw step (
      (refl, omega arith, rw e null_source-Serves, ih.0),
      omega (arith, ih.1, length-append bs (joined bss)),
    )
concat_parts-Laid t (some s ∷ ss) (bs ∷ bss) (hs, h) fits =
    let ih =
      concat_parts-Laid (t + length bs) ss bss h (omega (arith, length-append bs (joined bss))) in
    let step : add64 t s.size ≡ t + length bs = omega (arith, length-append bs (joined bss)) in
    rw step ((refl, hs.size_eq, hs, ih.0), omega (arith, ih.1, length-append bs (joined bss)))
concat_parts-Laid t [] (bs ∷ bss) h fits = elim h [ ]
concat_parts-Laid t (none ∷ ss) [] h fits = elim h [ ]
concat_parts-Laid t (some s ∷ ss) [] h fits = elim h [ ]

-- What lies at index `i`.
pub record PartAt (parts : List Part) (whole : List ℕ) (t i : ℕ) : Type 0 where
  pub content : List ℕ
  pub rest : List ℕ
  pub serves : Serves (get_or parts i no_part).src content
  pub len_eq : (get_or parts i no_part).len ≡ length content
  pub after : t ≤ (get_or parts i no_part).start
  pub view : drop ((get_or parts i no_part).start - t) whole ≡ content ++ rest
  pub next :
      i + 1 < length parts
      → (get_or parts (i + 1) no_part).start ≡ (get_or parts i no_part).start + length content
  pub last :
      i + 1 ≡ length parts → (get_or parts i no_part).start + length content ≡ t + length whole

pub Laid-head :
    {t : ℕ} (parts : List Part) (bss : List (List ℕ))
    → Laid t parts bss
    → 0 < length parts
    → (get_or parts 0 no_part).start ≡ t
Laid-head [] bss laid h = absurd (omega arith)
Laid-head (p ∷ ps) [] laid h = elim laid [ ]
Laid-head (p ∷ ps) (bs ∷ bss) laid h = laid.0

pub Laid-nil :
    (t : ℕ) (parts : List Part) (bss : List (List ℕ))
    → Laid t parts bss
    → length parts ≡ 0
    → length (joined bss) ≡ 0
Laid-nil t [] [] laid h = refl
Laid-nil t [] (bs ∷ bss) laid h = elim laid [ ]
Laid-nil t (p ∷ ps) bss laid h = absurd (omega arith)

suc_index :
    (parts : List Part) (i : ℕ)
    → (get_or parts (suc i + 1) no_part).start ≡ (get_or parts (suc (i + 1)) no_part).start
suc_index parts i = ap (λ (k : ℕ). (get_or parts k no_part).start) (omega arith)

PartAt-shift :
    (t : ℕ) (p : Part) (ps : List Part) (bs : List ℕ) (bss : List (List ℕ)) (i : ℕ)
    → PartAt ps (joined bss) (t + length bs) i
    → PartAt (p ∷ ps) (bs ++ joined bss) t (suc i)
PartAt-shift t p ps bs bss i a = record {
  content = a.content;
  rest = a.rest;
  serves = a.serves;
  len_eq = a.len_eq;
  after = omega (arith, a.after);
  view =
      drop-append_ge (start - t) (start - (t + length bs)) bs (joined bss) (omega (arith, a.after))
      ∙ a.view;
  next = λ more. suc_index (p ∷ ps) i ∙ a.next (omega arith);
  last = λ end. omega (arith, a.last (omega arith), length-append bs (joined bss));
}
  where
    start : ℕ
    start = (get_or ps i no_part).start

pub Laid-at :
    (t : ℕ) (parts : List Part) (bss : List (List ℕ)) (i : ℕ)
    → Laid t parts bss
    → i < length parts
    → PartAt parts (joined bss) t i
Laid-at t [] bss i laid h = absurd (omega arith)
Laid-at t (p ∷ ps) [] i laid h = elim laid [ ]
Laid-at t (p ∷ ps) (bs ∷ bss) zero (es, el, hs, laid) h = record {
  content = bs;
  rest = joined bss;
  serves = hs;
  len_eq = el;
  after = omega arith;
  view = drop_cong (p.start - t) 0 (bs ++ joined bss) (omega arith);
  next = λ more. Laid-head ps bss laid (omega arith) ∙ omega arith;
  last = λ end.
      omega
        (arith, length-append bs (joined bss), Laid-nil (t + length bs) ps bss laid (omega arith));
}
Laid-at t (p ∷ ps) (bs ∷ bss) (suc i) (es, el, hs, laid) h =
    PartAt-shift t p ps bs bss i (Laid-at (t + length bs) ps bss i laid (omega arith))
