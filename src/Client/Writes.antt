-- ===== src/Client/Writes.antt =====
-- Bytes written at an offset of a file, and the local files of the client as bytes.
use vosfs.Common.{
  ℕ, zero, suc, ◌+◌, ◌-◌, ◌≡◌, ◌≤◌, ◌<◌, refl, ◌∙◌, sym, ◌∷◌, [], ◌++◌, List, none, some, Str,
  arith, length, length-append, length-drop, length-take, get_elem?, get_elem?-past, get_elem?-take,
  drop, max, All, ◌⊎◌, inl, inr, some-same, dec_lt,
}
use vosfs.Api.{BlockInfo}
use vosfs.Client.Defs.{Desktop}
use vosfs.Client.Tiling.{piece, Tiles}

-- A gap before the offset is filled with zeros.
unfoldable pub write_at : ℕ → Str → Str → Str
write_at zero bytes s = bytes ++ drop (length bytes) s
write_at (suc n) bytes [] = 0 ∷ write_at n bytes []
write_at (suc n) bytes (c ∷ s) = c ∷ write_at n bytes s

-- What is documented of the calls by which a download is written, with the bytes of the file at a
-- path: opening keeps them, and a write that succeeds puts its bytes at the offset.
pub record WriteLaws {FS : Type 0} (desktop : Desktop FS) : Type 0 where
  pub content : FS → Str → Str
  pub open_keeps :
      (fs : FS) (path : Str)
      → (desktop.open_write fs path).1 ≡ none
      → content (desktop.open_write fs path).0 path ≡ content fs path
  pub write_puts :
      (fs : FS) (path : Str) (offset : ℕ) (bytes : Str)
      → 0 < length bytes
      → (desktop.write_all fs path offset bytes).1 ≡ none
      → content (desktop.write_all fs path offset bytes).0 path
        ≡ write_at offset bytes (content fs path)

pub length-write_at :
    (offset : ℕ) (bytes s : Str)
    → length (write_at offset bytes s) ≡ max (offset + length bytes) (length s)
unfolding write_at
length-write_at zero bytes s =
    omega (arith, length-append bytes (drop (length bytes) s), length-drop (length bytes) s)
length-write_at (suc n) bytes [] = omega (arith, length-write_at n bytes [])
length-write_at (suc n) bytes (c ∷ s) = omega (arith, length-write_at n bytes s)

zero-add : (i : ℕ) → 0 + i ≡ i
zero-add i = omega arith

suc-add : (n i : ℕ) → suc n + i ≡ suc (n + i)
suc-add n i = omega arith

get_elem?-append_first : (s t : Str) (i : ℕ) → i < length s → get_elem? (s ++ t) i ≡ get_elem? s i
get_elem?-append_first [] t i h = absurd (omega arith)
get_elem?-append_first (c ∷ s) t zero h = refl
get_elem?-append_first (c ∷ s) t (suc i) h = get_elem?-append_first s t i (omega arith)

-- The bytes that were written stand where they were written.
pub get_elem?-write_at :
    (offset i : ℕ) (bytes s : Str)
    → i < length bytes
    → get_elem? (write_at offset bytes s) (offset + i) ≡ get_elem? bytes i
unfolding write_at
get_elem?-write_at zero i bytes s h =
    rw (zero-add i) (get_elem?-append_first bytes (drop (length bytes) s) i h)
get_elem?-write_at (suc n) i bytes [] h = rw (suc-add n i) (get_elem?-write_at n i bytes [] h)
get_elem?-write_at (suc n) i bytes (c ∷ s) h = rw (suc-add n i) (get_elem?-write_at n i bytes s h)

get_elem?-overwritten :
    (bytes s : Str) (i : ℕ)
    → length bytes ≤ i
    → get_elem? (bytes ++ drop (length bytes) s) i ≡ get_elem? s i
get_elem?-overwritten [] s i h = refl
get_elem?-overwritten (b ∷ bytes) [] zero h = absurd (omega arith)
get_elem?-overwritten (b ∷ bytes) [] (suc i) h =
    get_elem?-past (bytes ++ []) i (omega (arith, length-append bytes []))
get_elem?-overwritten (b ∷ bytes) (c ∷ s) zero h = absurd (omega arith)
get_elem?-overwritten (b ∷ bytes) (c ∷ s) (suc i) h = get_elem?-overwritten bytes s i (omega arith)

-- All other bytes stay.
pub get_elem?-write_at_other :
    (offset i x : ℕ) (bytes s : Str)
    → (i < offset) ⊎ (offset + length bytes ≤ i)
    → get_elem? s i ≡ some x
    → get_elem? (write_at offset bytes s) i ≡ some x
unfolding write_at
get_elem?-write_at_other zero i x bytes s (inl h) e = absurd (omega arith)
get_elem?-write_at_other zero i x bytes s (inr h) e =
    get_elem?-overwritten bytes s i (omega arith) ∙ e
get_elem?-write_at_other (suc n) i x bytes [] h e = absurd (cc)
get_elem?-write_at_other (suc n) zero x bytes (c ∷ s) h e = e
get_elem?-write_at_other (suc n) (suc i) x bytes (c ∷ s) (inl h) e =
    get_elem?-write_at_other n i x bytes s (inl (omega arith)) e
get_elem?-write_at_other (suc n) (suc i) x bytes (c ∷ s) (inr h) e =
    get_elem?-write_at_other n i x bytes s (inr (omega arith)) e

pub get_elem?-drop : (n i : ℕ) (s : Str) → get_elem? (drop n s) i ≡ get_elem? s (n + i)
get_elem?-drop zero i s = rw (zero-add i) refl
get_elem?-drop (suc n) i [] = sym (get_elem?-past [] (suc n + i) (omega arith))
get_elem?-drop (suc n) i (c ∷ s) = rw (suc-add n i) (get_elem?-drop n i s)

get_elem?-some_of_lt : (s : Str) (i : ℕ) → i < length s → (x : ℕ) × (get_elem? s i ≡ some x)
get_elem?-some_of_lt [] i h = absurd (omega arith)
get_elem?-some_of_lt (c ∷ s) zero h = (c, refl)
get_elem?-some_of_lt (c ∷ s) (suc i) h = get_elem?-some_of_lt s i (omega arith)

-- Texts that are the same byte for byte.
pub bytes_ext : (s t : Str) → ((i : ℕ) → get_elem? s i ≡ get_elem? t i) → s ≡ t
bytes_ext [] [] h = refl
bytes_ext [] (c ∷ t) h = absurd (cc (h 0))
bytes_ext (b ∷ s) [] h = absurd (cc (h 0))
bytes_ext (b ∷ s) (c ∷ t) h = cc (some-same (h 0), bytes_ext s t (λ i. h (suc i)))

-- A block is in the file as it is in the content.
abbrev pub IsWritten : Str → Str → BlockInfo → Type 0
IsWritten content s block =
    (i : ℕ) → i < block.size → get_elem? s (block.offset + i) ≡ get_elem? content (block.offset + i)

-- A block of the content that is written is in the file, and so is every block that was in it.
pub write_at-IsWritten :
    (content s : Str) (block : BlockInfo)
    → block.offset + block.size ≤ length content
    → IsWritten content (write_at block.offset (piece content block) s) block
write_at-IsWritten content s block fits i h =
    let size = length-take block.size (drop block.offset content) in
    let rest = length-drop block.offset content in
    get_elem?-write_at block.offset i (piece content block) s (omega (arith, size, rest))
    ∙ get_elem?-take block.size i (drop block.offset content) h
    ∙ get_elem?-drop block.offset i content

pub write_at-keeps :
    (content s : Str) (block old : BlockInfo)
    → block.offset + block.size ≤ length content
    → old.offset + old.size ≤ length content
    → IsWritten content s old
    → IsWritten content (write_at block.offset (piece content block) s) old
write_at-keeps content s block old fits fits_old written i h =
    let j = old.offset + i in
    let (x, there) = get_elem?-some_of_lt content j (omega arith) in
    let size = length-take block.size (drop block.offset content) in
    let rest = length-drop block.offset content in
    let was = written i h ∙ there in
    elim (dec_lt j block.offset) [
      | yes before ↦
          get_elem?-write_at_other block.offset j x (piece content block) s (inl before) was
          ∙ sym there
      | no late ↦ elim (dec_lt j (block.offset + block.size)) [
        | yes within ↦
            (let e : block.offset + (j - block.offset) ≡ j = omega arith in
              rw e at (write_at-IsWritten content s block fits (j - block.offset) (omega arith)))
        | no after ↦
            get_elem?-write_at_other block.offset j x (piece content block) s
              (inr (omega (arith, size, rest))) was
            ∙ sym there
      ]
    ]

covered :
    (content s : Str) (id offset i : ℕ) (blocks : List BlockInfo)
    → Tiles id offset (length content) blocks
    → All (IsWritten content s) blocks
    → offset ≤ i
    → i < length content
    → get_elem? s i ≡ get_elem? content i
covered content s id offset i [] tiles written low high = absurd (omega arith)
covered content s id offset i (b ∷ bs) tiles written low high =
    elim (dec_lt i (b.offset + b.size)) [
      | yes within ↦
          (let e : b.offset + (i - b.offset) ≡ i = omega arith in
            rw e at (written.0 (i - b.offset) (omega arith)))
      | no after ↦
          covered content s (id + 1) (b.offset + b.size) i bs tiles.6 written.1 (omega arith) high
    ]

-- Blocks that tile the content and are all in a file no longer than it make the file the content.
pub IsWritten-all :
    (content s : Str) (blocks : List BlockInfo)
    → Tiles 0 0 (length content) blocks
    → All (IsWritten content s) blocks
    → length s ≤ length content
    → s ≡ content
IsWritten-all content s blocks tiles written short = bytes_ext s content (λ i.
    elim (dec_lt i (length content)) [
      | yes within ↦ covered content s 0 0 i blocks tiles written (omega arith) within
      | no past ↦ get_elem?-past s i (omega arith) ∙ sym (get_elem?-past content i (omega arith))
    ])
