-- ===== src/Writer/Archive/Head.antt =====
-- Where the chunks stand in what is written in front of the payloads.
use cri_archive_lib.Base.{
  ℕ, ◌+◌, ◌-◌, ◌≤◌, ◌≡◌, refl, sym, ◌∙◌, ap, arith, subst, ltb, le→ltb, Bool-cases, inl, inr,
}
use cri_archive_lib.Base.{
  length, length-append, length-replicate, some-inj, append_assoc, drop, drop-append, Option, none,
  some, List, [], ◌∷◌, ◌++◌,
}
use cri_archive_lib.Header.{CpkChunkKind, magic, build_chunk}
use cri_archive_lib.Base.Bytes.{to_le, length-to_le}
use cri_archive_lib.Writer.Layout.{engine_index_base}
use cri_archive_lib.Writer.Layout.Packed.{IsBehind}
use cri_archive_lib.Writer.Output.{write_zeros}
use cri_archive_lib.Writer.Output.Payloads.{append-nil, zeros, pad-to, write_zeros-zeros}
use cri_archive_lib.Writer.Archive.{
  Plan, write_at, write_optional, optional_chunk, write_head, copyright_marker,
  copyright_marker_offset,
}

-- The bytes stand at the offset.
pub record HasAt (offset : ℕ) (bytes out : List ℕ) : Type 0 where
  pub before : List ℕ
  pub more : List ℕ
  pub split : out ≡ before ++ (bytes ++ more)
  pub here : length before ≡ offset

pub HasAt-append :
    {offset : ℕ} {bytes out : List ℕ} (tail : List ℕ)
    → HasAt offset bytes out
    → HasAt offset bytes (out ++ tail)
HasAt-append {offset} {bytes} {out} tail h = record {
  before = h.before;
  more = h.more ++ tail;
  split =
      ap (λ (x : List ℕ). x ++ tail) h.split
      ∙ append_assoc h.before (bytes ++ h.more) tail
      ∙ ap (λ (x : List ℕ). h.before ++ x) (append_assoc bytes h.more tail);
  here = h.here;
}

pub HasAt-drop :
    {offset : ℕ} {bytes out : List ℕ} (h : HasAt offset bytes out)
    → drop offset out ≡ bytes ++ h.more
HasAt-drop {offset} {bytes} {out} h =
    ap (drop offset) h.split
    ∙ ap (λ (n : ℕ). drop n (h.before ++ (bytes ++ h.more))) (sym h.here)
    ∙ drop-append h.before (bytes ++ h.more)

-- Behind the end, zeros are written up to the offset.
pub write_at-behind :
    (offset : ℕ) (bytes output : List ℕ)
    → length output ≤ offset
    → write_at offset bytes output ≡ (output ++ zeros (offset - length output)) ++ bytes
unfolding write_at
write_at-behind offset bytes output h =
    let t = le→ltb offset (length output) h in
    let pad = pad-to offset output h in
    elim (Bool-cases (ltb (length output) offset)) [
      | inl e ↦ rw e (ap (λ (x : List ℕ). x ++ bytes) (rw e at pad))
      | inr e ↦ rw (e, t) (ap (λ (x : List ℕ). x ++ bytes) (rw e at pad))
    ]

pub length-build_chunk :
    (kind : CpkChunkKind) (table : List ℕ)
    → length (magic kind) ≡ 4
    → length (build_chunk kind table) ≡ 0x10 + length table
unfolding build_chunk
length-build_chunk kind table four =
    let marks : List ℕ = 0xff ∷ 0xff ∷ 0xff ∷ 0xff ∷ [] in
    let size = to_le 8 (length table) in
    omega (
      arith,
      four,
      length-append (magic kind ++ marks) size,
      length-append ((magic kind ++ marks) ++ size) table,
      length-append (magic kind) marks,
      length-to_le 8 (length table),
    )

abbrev pub length_of : Option (List ℕ) → Option ℕ
length_of none = none
length_of (some table) = some (length table)

-- What `write_optional` leaves.
pub record IsAdded (kind : CpkChunkKind) (table : Option (List ℕ)) (offset next : ℕ)
    (output out : List ℕ) : Type 0 where
  pub more : List ℕ
  pub whole : out ≡ output ++ more
  pub end : length out ≤ next
  pub placed : (bytes : List ℕ) → table ≡ some bytes → HasAt offset (build_chunk kind bytes) out

pub write_optional-IsAdded :
    (kind : CpkChunkKind) (table : Option (List ℕ)) (cursor offset next : ℕ) (output : List ℕ)
    → length (magic kind) ≡ 4
    → length output ≤ cursor
    → IsBehind (length_of table) cursor offset next
    → IsAdded kind table offset next output
        (write_optional offset (optional_chunk kind table) output)
write_optional-IsAdded kind none cursor offset next output four le b = record {
  more = [];
  whole = sym (append-nil output);
  end = omega (arith, b.1);
  placed = λ bytes e. cc;
}
write_optional-IsAdded kind (some table) cursor offset next output four le b =
    let chunk = build_chunk kind table in
    let pad = zeros (offset - length output) in
    let written = write_at-behind offset chunk output (omega (arith, b.0)) in
    let n = length-append output pad in
    let z = length-replicate {A = ℕ} (offset - length output) 0 in
    let k = length-build_chunk kind table four in
    let at : length (output ++ pad) ≡ offset = omega (arith, n, z, b.0) in
    record {
      more = pad ++ chunk;
      whole = written ∙ append_assoc output pad chunk;
      end = omega (arith, ap length written, length-append (output ++ pad) chunk, at, k, b.0, b.1);
      placed = λ bytes e. record {
        before = output ++ pad;
        more = [];
        split =
            written
            ∙ ap (λ (x : List ℕ). (output ++ pad) ++ x) (sym (append-nil chunk))
            ∙ ap (λ (x : List ℕ). (output ++ pad) ++ (build_chunk kind x ++ [])) (some-inj e);
        here = at;
      };
    }

-- What `write_head` leaves: the three chunks at their offsets, and no more than the content offset.
pub record IsHead (p : Plan) (header_chunk out : List ℕ) : Type 0 where
  pub header : HasAt 0 header_chunk out
  pub toc :
      (bytes : List ℕ)
      → p.tables.toc_table ≡ some bytes
      → HasAt p.places.toc_offset (build_chunk CpkChunkKind.toc bytes) out
  pub itoc :
      (bytes : List ℕ)
      → p.tables.itoc_table ≡ some bytes
      → HasAt p.places.itoc_offset (build_chunk CpkChunkKind.itoc bytes) out
  pub end : length out ≤ p.places.content_offset

pub write_head-IsHead :
    (p : Plan) (header_chunk : List ℕ) (itoc_start : ℕ)
    → length header_chunk ≤ copyright_marker_offset
    → IsBehind (length_of p.tables.toc_table) engine_index_base p.places.toc_offset itoc_start
    → IsBehind
        (length_of p.tables.itoc_table)
        itoc_start
        p.places.itoc_offset
        p.places.content_offset
    → IsHead p header_chunk (write_head p header_chunk)
unfolding write_head magic
write_head-IsHead p header_chunk itoc_start le bt bi =
    let content = p.places.content_offset in
    let pad = zeros (copyright_marker_offset - length header_chunk) in
    let marked =
      write_zeros (copyright_marker_offset - length header_chunk) header_chunk
      ++ copyright_marker in
    let filled = write_zeros-zeros (copyright_marker_offset - length header_chunk) header_chunk in
    let n : length marked ≤ engine_index_base = omega (
      arith,
      length-append (write_zeros (copyright_marker_offset - length header_chunk) header_chunk)
          copyright_marker,
      ap length filled,
      length-append header_chunk pad,
      length-replicate {A = ℕ} (copyright_marker_offset - length header_chunk) 0,
    ) in
    let t =
      write_optional-IsAdded CpkChunkKind.toc p.tables.toc_table engine_index_base
        p.places.toc_offset itoc_start marked refl n bt in
    let toc =
      write_optional p.places.toc_offset (optional_chunk CpkChunkKind.toc p.tables.toc_table)
        marked in
    let i =
      write_optional-IsAdded CpkChunkKind.itoc p.tables.itoc_table itoc_start p.places.itoc_offset
        content toc refl t.end bi in
    let itoc =
      write_optional p.places.itoc_offset (optional_chunk CpkChunkKind.itoc p.tables.itoc_table)
        toc in
    let tail = zeros (content - length itoc) in
    let whole = pad-to content itoc i.end in
    let start : marked ≡ header_chunk ++ (pad ++ copyright_marker) =
      ap (λ (x : List ℕ). x ++ copyright_marker) filled
      ∙ append_assoc header_chunk pad copyright_marker in
    let header : HasAt 0 header_chunk marked = record {
      before = [];
      more = pad ++ copyright_marker;
      split = start;
      here = refl;
    } in
    let first : HasAt 0 header_chunk itoc =
      subst (λ (x : List ℕ). HasAt 0 header_chunk x) (sym i.whole)
        (HasAt-append i.more (
          subst (λ (x : List ℕ). HasAt 0 header_chunk x) (sym t.whole)
            (HasAt-append t.more header))) in
    record {
      header = subst (λ (x : List ℕ). HasAt 0 header_chunk x) (sym whole) (HasAt-append tail first);
      toc = λ bytes e.
          subst (λ (x : List ℕ). HasAt p.places.toc_offset (build_chunk CpkChunkKind.toc bytes) x)
            (sym whole)
            (HasAt-append tail (
              subst
                (λ (x : List ℕ). HasAt p.places.toc_offset (build_chunk CpkChunkKind.toc bytes) x)
                (sym i.whole) (HasAt-append i.more (t.placed bytes e))));
      itoc = λ bytes e.
          subst (λ (x : List ℕ). HasAt p.places.itoc_offset (build_chunk CpkChunkKind.itoc bytes) x)
            (sym whole) (HasAt-append tail (i.placed bytes e));
      end = omega (
        arith,
        ap length whole,
        length-append itoc tail,
        length-replicate {A = ℕ} (content - length itoc) 0,
        i.end,
      );
    }
