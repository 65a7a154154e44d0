-- ===== src/Source/Concat/Search.antt =====
-- The search for a part in `ConcatByteSource` of src/bytesource.h.
use vidya_god_fs.Prelude.{
  ℕ, zero, suc, ◌+◌, ◌-◌, ◌/◌, ◌≤◌, ◌<◌, ◌^◌, ◌≡◌, sym, ap, ◌∙◌, arith, leb→le, List, ◌++◌, true,
  false, length, take, drop, get_or, ltb, leb, ◌==◌, ◌||◌, ltb→lt, length-drop, length-append,
  take-append_le, drop-append_le, drop-drop, drop_cong, Bool-cases, inl, inr,
}
use mathlib.Core.Path.{subst}
use vidya_god_fs.Bytes.{add64}
use vidya_god_fs.Source.{Part, no_part, find_part}
use vidya_god_fs.Source.Exact.{Serves}
use vidya_god_fs.Source.Concat.Parts.{Laid, Laid-at, Laid-head, Laid-nil, PartAt, joined}

-- The part that covers `pos`: the last one that does not start behind it.
record Found (parts : List Part) (pos i : ℕ) : Type 0 where
  pub within : i < length parts
  pub starts : (get_or parts i no_part).start ≤ pos
  pub ends : i + 1 < length parts → pos < (get_or parts (i + 1) no_part).start

module _ (parts : List Part) (pos : ℕ) where
  abbrev start_of : ℕ → ℕ
  start_of i = (get_or parts i no_part).start

  found_one : (fuel lo hi : ℕ) → ltb (lo + 1) hi ≡ false → find_part (suc fuel) parts pos lo hi ≡ lo
  unfolding find_part
  found_one fuel lo hi e = rw e

  go_right :
      (fuel lo hi : ℕ)
      → ltb (lo + 1) hi ≡ true
      → leb (start_of ((lo + hi) / 2)) pos ≡ true
      → find_part (suc fuel) parts pos lo hi ≡ find_part fuel parts pos ((lo + hi) / 2) hi
  unfolding find_part
  go_right fuel lo hi e f = rw (e, f)

  go_left :
      (fuel lo hi : ℕ)
      → ltb (lo + 1) hi ≡ true
      → leb (start_of ((lo + hi) / 2)) pos ≡ false
      → find_part (suc fuel) parts pos lo hi ≡ find_part fuel parts pos lo ((lo + hi) / 2)
  unfolding find_part
  go_left fuel lo hi e f = rw (e, f)

  -- With `lo` at or before `pos` and `hi` behind it, the search ends at the covering part.
  find_part-Found :
      (fuel lo hi : ℕ)
      → lo < hi
      → hi ≤ fuel + lo
      → hi ≤ length parts
      → start_of lo ≤ pos
      → (hi < length parts → pos < start_of hi)
      → Found parts pos (find_part fuel parts pos lo hi)
  find_part-Found zero lo hi less enough inside left right = absurd (omega arith)
  find_part-Found (suc fuel) lo hi less enough inside left right =
      elim (Bool-cases (ltb (lo + 1) hi)) [
        | inr done ↦ rw (found_one fuel lo hi done) (record {
          within = omega arith;
          starts = left;
          ends = λ q. subst (λ k. k < length parts → pos < start_of k) (adjacent done) right q;
        })
        | inl more ↦ elim (Bool-cases (leb (start_of ((lo + hi) / 2)) pos)) [
          | inl at ↦ rw (go_right fuel lo hi more at) (
              find_part-Found fuel ((lo + hi) / 2) hi (ground arith) (ground arith) inside
                (leb→le _ _ at) right)
          | inr behind ↦ rw (go_left fuel lo hi more behind) (
              find_part-Found fuel lo ((lo + hi) / 2) (ground arith) (ground arith) (ground arith)
                left (λ q. ground arith))
        ]
      ]
    where
      adjacent : ltb (lo + 1) hi ≡ false → hi ≡ lo + 1
      adjacent done = ground arith

-- The bytes of a laid-out concatenation at a position inside it.
pub record Covers (parts : List Part) (whole : List ℕ) (pos i : ℕ) : Type 0 where
  pub content : List ℕ
  pub rest : List ℕ
  pub serves : Serves (get_or parts i no_part).src content
  pub len_eq : (get_or parts i no_part).len ≡ length content
  pub starts : (get_or parts i no_part).start ≤ pos
  pub inside : pos < (get_or parts i no_part).start + length content
  pub view : drop (get_or parts i no_part).start whole ≡ content ++ rest

pub find_part-Covers :
    (parts : List Part) (bss : List (List ℕ)) (pos : ℕ)
    → Laid 0 parts bss
    → pos < length (joined bss)
    → Covers parts (joined bss) pos (find_part (length parts) parts pos 0 (length parts))
find_part-Covers parts bss pos laid h =
    covers (find_part (length parts) parts pos 0 (length parts)) found
  where
    some_part : 0 < length parts
    some_part = elim (Bool-cases (length parts == 0)) [
      | inl none_left ↦ absurd (omega (arith, Laid-nil 0 parts bss laid (ground arith)))
      | inr more ↦ ground arith
    ]

    found : Found parts pos (find_part (length parts) parts pos 0 (length parts))
    found =
        find_part-Found parts pos (length parts) 0 (length parts) some_part (omega arith)
          (omega arith) (omega (arith, Laid-head parts bss laid some_part))
          (λ q. absurd (omega arith))

    covers : (i : ℕ) → Found parts pos i → Covers parts (joined bss) pos i
    covers i f = at_part (Laid-at 0 parts bss i laid f.within)
      where
        at_part : PartAt parts (joined bss) 0 i → Covers parts (joined bss) pos i
        at_part a = record {
          content = a.content;
          rest = a.rest;
          serves = a.serves;
          len_eq = a.len_eq;
          starts = f.starts;
          inside = elim (Bool-cases (ltb (i + 1) (length parts))) [
            | inl more ↦ omega (arith, f.ends (ltb→lt _ _ more), a.next (ltb→lt _ _ more))
            | inr last ↦ omega (arith, a.last (ground (arith, f.within)))
          ];
          view =
              drop_cong (start_of parts pos i) (start_of parts pos i - 0) (joined bss) (omega arith)
              ∙ a.view;
        }

-- A piece of the covering part is that piece of the whole.
pub Covers-slice :
    (parts : List Part) (whole : List ℕ) (pos i k : ℕ) (c : Covers parts whole pos i)
    → pos - (get_or parts i no_part).start + k ≤ length c.content
    → take k (drop (pos - (get_or parts i no_part).start) c.content) ≡ take k (drop pos whole)
Covers-slice parts whole pos i k c fits = sym (
    ap (take k) (
      drop_cong pos (start + local) whole (omega (arith, c.starts))
      ∙ sym (drop-drop local start whole)
      ∙ ap (drop local) c.view
      ∙ drop-append_le local c.content c.rest (omega arith))
    ∙ take-append_le k (drop local c.content) c.rest (omega (arith, length-drop local c.content)))
  where
    start : ℕ
    start = (get_or parts i no_part).start

    local : ℕ
    local = pos - (get_or parts i no_part).start

pub Covers-bound :
    (parts : List Part) (whole : List ℕ) (pos i : ℕ) (c : Covers parts whole pos i)
    → (get_or parts i no_part).start + length c.content ≤ length whole
Covers-bound parts whole pos i c = omega (
  arith,
  c.starts,
  c.inside,
  ap length c.view,
  length-append c.content c.rest,
  length-drop (get_or parts i no_part).start whole,
)

-- The covering part is not taken for a gap.
pub Covers-no_gap :
    (parts : List Part) (whole : List ℕ) (pos i : ℕ) (c : Covers parts whole pos i)
    → length whole < 2 ^ 64
    → let pt = get_or parts i no_part in ((pt.len == 0) || leb (add64 pt.start pt.len) pos) ≡ false
Covers-no_gap parts whole pos i c fits =
    ground (arith, c.starts, c.inside, c.len_eq, Covers-bound parts whole pos i c)
