-- ===== src/Overlay/CopyUp/Content.antt =====
-- What a copy-up writes (`FullWrite` of src/hostio.h and the loop over an archive's entry in `CopyUp` of
-- src/overlay.cpp), on a host whose writes append to the file of a descriptor, may stop short, and are
-- interrupted only so often.
use vidya_god_fs.Prelude.{
  ℕ, zero, suc, ◌+◌, ◌-◌, ◌≤◌, ◌<◌, ◌≡◌, sym, ap, ◌∙◌, arith, false, List, [], ◌∷◌, ◌++◌,
  append-nil, append_assoc, Result, ok, err, stuck, pos, eio, length, length-drop, take, drop,
  take-append-drop, ◌==◌, if◌then◌else◌, take_split, take_all, Bool-cases, inl, inr, ltb, ltb→lt,
}
use vidya_god_fs.Zip.{ZipReader, read_zip_entry}
use vidya_god_fs.Source.Exact.{Chunk}
use vidya_god_fs.Overlay.Types.{HostIo}
use vidya_god_fs.Overlay.CopyUp.{eintr, full_write, chunk_size, copy_entry}

at_end : (n m : ℕ) → (m < n → 0 < 0) → n ≤ m
at_end n m p = elim (Bool-cases (ltb m n)) [
  | inl less ↦ absurd (omega (arith, p (ltb→lt m n less)))
  | inr more ↦ ground arith
]

module _ {F : Type 0} (h : HostIo F) (rounds : ℕ) (content : F → ℕ → List ℕ)
    (interrupts : F → ℕ) where
  -- What a host may answer to a write: it appended the first `n` bytes, or was interrupted and wrote
  -- nothing, or failed.
  pub data WriteAnswer (f : F) (fd : ℕ) (buf : List ℕ) : Result ℕ × F → Type 0 where
    wrote :
        (n : ℕ) (f1 : F)
        → n ≤ length buf
        → content f1 fd ≡ content f fd ++ take n buf
        → interrupts f1 ≤ interrupts f
        → WriteAnswer f fd buf (ok n, f1)
    interrupted :
        (f1 : F)
        → content f1 fd ≡ content f fd
        → interrupts f1 < interrupts f
        → WriteAnswer f fd buf (err eintr, f1)
    refused : (e : ℕ) (f1 : F) → (e == eintr) ≡ false → WriteAnswer f fd buf (err e, f1)

  -- A copy has written all of `want`, or it failed; it did not run out of rounds.
  pub data Copied (fd : ℕ) (want : List ℕ) (bound : ℕ) : Result ℕ × F → Type 0 where
    all_there :
        (f1 : F) → content f1 fd ≡ want → interrupts f1 ≤ bound → Copied fd want bound (ok 0, f1)
    failed : (e : ℕ) (f1 : F) → Copied fd want bound (err e, f1)

  module _
      (writes : (f : F) (fd : ℕ) (buf : List ℕ) → WriteAnswer f fd buf (h.write f fd buf)) where
    one_round :
        (fuel fd b : ℕ) (buf : List ℕ) (f : F) (want : List ℕ) (bound : ℕ) (x : Result ℕ × F)
        → WriteAnswer f fd (b ∷ buf) x
        → content f fd ++ (b ∷ buf) ≡ want
        → interrupts f ≤ bound
        → suc (length buf) + interrupts f ≤ suc fuel
        → ((rest : List ℕ) (f1 : F)
            → content f1 fd ++ rest ≡ want
            → interrupts f1 ≤ bound
            → length rest + interrupts f1 ≤ fuel
            → Copied fd want bound (full_write h rounds fuel fd rest f1))
        → Copied fd want bound (elim x.0 as (λ r. Result ℕ × F) [
          | ok zero ↦ (err eio, x.1)
          | ok (suc n) ↦ full_write h rounds fuel fd (drop (suc n) (b ∷ buf)) x.1
          | err e ↦ if e == eintr then full_write h rounds fuel fd (b ∷ buf) x.1 else (err e, x.1)
          | stuck ↦ (stuck, x.1)
        ])
    one_round fuel fd b buf f want bound x (wrote zero f1 le same left) eq few enough again =
        failed eio f1
    one_round fuel fd b buf f want bound x (wrote (suc n) f1 le same left) eq few enough again =
        again (drop (suc n) (b ∷ buf)) f1
          (ap (λ t. t ++ drop (suc n) (b ∷ buf)) same
            ∙ (append_assoc (content f fd) (take (suc n) (b ∷ buf)) (drop (suc n) (b ∷ buf))
                ∙ (ap (λ t. content f fd ++ t) (take-append-drop (suc n) (b ∷ buf)) ∙ eq)))
          (omega (arith, left, few)) (omega (arith, length-drop (suc n) (b ∷ buf), left, enough))
    one_round fuel fd b buf f want bound x (interrupted f1 same left) eq few enough again =
        again (b ∷ buf) f1 (ap (λ t. t ++ (b ∷ buf)) same ∙ eq) (omega (arith, left, few))
          (omega (arith, left, enough))
    one_round fuel fd b buf f want bound x (refused e f1 other) eq few enough again =
        rw other (failed e f1)

    -- `FullWrite` with enough rounds, one for every byte and every interruption, never runs out of them:
    -- it fails, or the file then ends with exactly the bytes given.
    pub full_write-Copied :
        (fuel fd : ℕ) (buf : List ℕ) (f : F) (want : List ℕ) (bound : ℕ)
        → content f fd ++ buf ≡ want
        → interrupts f ≤ bound
        → length buf + interrupts f ≤ fuel
        → Copied fd want bound (full_write h rounds fuel fd buf f)
    unfolding full_write
    full_write-Copied zero fd [] f want bound eq few enough =
        all_there f (sym (append-nil (content f fd)) ∙ eq) few
    full_write-Copied zero fd (b ∷ buf) f want bound eq few enough = absurd (omega (arith, enough))
    full_write-Copied (suc fuel) fd [] f want bound eq few enough =
        all_there f (sym (append-nil (content f fd)) ∙ eq) few
    full_write-Copied (suc fuel) fd (b ∷ buf) f want bound eq few enough =
        one_round fuel fd b buf f want bound (h.write f fd (b ∷ buf)) (writes f fd (b ∷ buf)) eq few
          enough (λ rest f1. full_write-Copied fuel fd rest f1 want bound)

    -- After a chunk is written, the loop goes on behind it.
    next_chunk :
        (fuel fd off k : ℕ) (r : ZipReader) (want so_far : List ℕ) (x : Result ℕ × F)
        → Copied fd so_far rounds x
        → ((f1 : F)
            → content f1 fd ≡ so_far
            → interrupts f1 ≤ rounds
            → Copied fd want rounds (copy_entry h rounds fuel r fd (off + k) f1))
        → Copied fd want rounds (elim x.0 as (λ t. Result ℕ × F) [
          | ok n ↦ copy_entry h rounds fuel r fd (off + k) x.1
          | err e ↦ (err e, x.1)
          | stuck ↦ (stuck, x.1)
        ])
    next_chunk fuel fd off k r want so_far x (all_there f1 same few) go_on = go_on f1 same few
    next_chunk fuel fd off k r want so_far x (failed e f1) go_on = failed e f1

    module _ (r : ZipReader) (bytes : List ℕ) (fd : ℕ) (start : List ℕ)
        (reads : (off : ℕ)
          → off ≤ length bytes
          → Chunk bytes chunk_size off (read_zip_entry r chunk_size (pos off))) where
      entry_step :
          (fuel off : ℕ) (got : List ℕ) (f : F) (answer : Result (List ℕ))
          → answer ≡ ok got
          → got ≡ take (length got) (drop off bytes)
          → (off < length bytes → 0 < length got)
          → off + length got ≤ length bytes
          → content f fd ≡ start ++ take off bytes
          → interrupts f ≤ rounds
          → ((f1 : F)
              → 0 < length got
              → content f1 fd ≡ start ++ take (off + length got) bytes
              → interrupts f1 ≤ rounds
              → Copied fd
                  (start ++ bytes)
                  rounds
                  (copy_entry h rounds fuel r fd (off + length got) f1))
          → Copied fd (start ++ bytes) rounds (elim answer as (λ t. Result ℕ × F) [
            | err e ↦ (err e, f)
            | stuck ↦ (stuck, f)
            | ok [] ↦ (ok 0, f)
            | ok (b ∷ got) ↦
                let (rc, f1) = full_write h rounds (rounds + length (b ∷ got)) fd (b ∷ got) f in
                elim rc [
                  | ok n ↦ copy_entry h rounds fuel r fd (off + length (b ∷ got)) f1
                  | err e ↦ (err e, f1)
                  | stuck ↦ (stuck, f1)
                ]
          ])
      entry_step fuel off [] f answer e eq more range same few go_on = rw e (
          all_there f
            (same ∙ ap (λ t. start ++ t) (take_all off bytes (at_end (length bytes) off more))) few)
      entry_step fuel off (b ∷ got) f answer e eq more range same few go_on = rw e (
          next_chunk fuel fd off (length (b ∷ got)) r (start ++ bytes)
            (start ++ take (off + length (b ∷ got)) bytes) _
            (full_write-Copied (rounds + length (b ∷ got)) fd (b ∷ got) f
              (start ++ take (off + length (b ∷ got)) bytes) rounds
              (ap (λ t. t ++ (b ∷ got)) same
                ∙ (append_assoc start (take off bytes) (b ∷ got)
                    ∙ ap (λ t. start ++ t)
                        (ap (λ t. take off bytes ++ t) eq
                          ∙ sym (take_split off (length (b ∷ got)) bytes))))
              few (omega (arith, few)))
            (λ f1. go_on f1 (omega arith)))

      copy_entry-from :
          (fuel off : ℕ) (f : F)
          → off ≤ length bytes
          → length bytes - off < fuel
          → content f fd ≡ start ++ take off bytes
          → interrupts f ≤ rounds
          → Copied fd (start ++ bytes) rounds (copy_entry h rounds fuel r fd off f)
      unfolding copy_entry
      copy_entry-from zero off f le enough same few = absurd (omega (arith, enough))
      copy_entry-from (suc fuel) off f le enough same few =
          let c = reads off le in
          entry_step fuel off c.chunk f (read_zip_entry r chunk_size (pos off)) c.chunk_read
            c.chunk_eq (λ more. c.chunk_some (omega arith) more) c.chunk_range same few
            (λ f1 some now left.
              copy_entry-from fuel (off + length c.chunk) f1 c.chunk_range
                (omega (arith, some, enough, c.chunk_range)) now left)

      -- The loop of `CopyUp` over an entry, on a reader that gives the entry's bytes and a host that
      -- interrupts at most `rounds` writes, ends: it fails, or the file then has what it had before and
      -- all of the entry's bytes behind it, in their order.
      pub copy_entry-Copied :
          (f : F)
          → content f fd ≡ start
          → interrupts f ≤ rounds
          → Copied fd (start ++ bytes) rounds (copy_entry h rounds (suc (length bytes)) r fd 0 f)
      copy_entry-Copied f same few =
          copy_entry-from (suc (length bytes)) 0 f (omega arith) (omega arith)
            (same ∙ sym (append-nil start)) few
