-- ===== src/Att/Entries.antt =====
-- protocols/att/att.c: the iterator over the entries of a Read By Group Type response.
use aros_bluzing.Prelude.{
  ℕ, zero, suc, ◌+◌, ◌^◌, ◌<◌, ◌≡◌, refl, ap, ◌∙◌, List, [], ◌∷◌, ◌++◌, length, length-append, map,
  append_assoc, All, ◌==◌, ltb, true, false, arith,
}
use mathlib.Core.Path.{subst}
use aros_bluzing.Status.{
  ok, err, invalid_argument, buffer_underflow, Result, Action, ◌>>=◌, ◌>>◌, return, fail_if, gets,
}
use aros_bluzing.Endian
use aros_bluzing.Endian.{at}
use aros_bluzing.Buffer.{size_mod}
use aros_bluzing.Buffer.Reader.{Reader, reader_init}
use aros_bluzing.Buffer.Reader.Refine.{
  Views, need, read_u8-Views, read_le16-Views, skip-Views, reader_init-Views_all,
}
use aros_bluzing.Buffer.Reader.Parse.{
  Parses, bind-Parses, return-Parses, fail_if-Parses, remaining-Parses, front, peek-Parses,
  Reads-of, Refuses-of, payload_needed, payload_front, le16_needed,
}
use aros_bluzing.Att.{
  GroupEntry, Iter, started, less_u8, read_entry_len, read_by_group_type_iter_init, read_group,
  read_by_group_type_iter_next,
}

-- A service as the server lists it.
pub record Group : Type 0 where
  pub handle : ℕ
  pub end_group_handle : ℕ
  pub value : List ℕ

abbrev pub group_bytes : Group → List ℕ
group_bytes g = Endian.write_le16 g.handle ++ (Endian.write_le16 g.end_group_handle ++ g.value)

abbrev pub all_groups : List Group → List ℕ
all_groups [] = []
all_groups (g ∷ gs) = group_bytes g ++ all_groups gs

abbrev pub entry_of : Group → GroupEntry
entry_of g = record {
  handle = g.handle;
  end_group_handle = g.end_group_handle;
  value = g.value;
  value_len = length g.value;
}

-- The values have `n` bytes, and the handles 16 bits.
abbrev pub HasLength : ℕ → Group → Type 0
HasLength n g = (length g.value ≡ n) × (g.handle < 2 ^ 16) × (g.end_group_handle < 2 ^ 16)

list_group : ℕ → Action (List ℕ) GroupEntry
list_group entry_len = do
  left ← gets length
  fail_if (left == 0) buffer_underflow
  fail_if (ltb left entry_len) buffer_underflow
  handle ← need 2 Endian.read_le16
  end_group_handle ← need 2 Endian.read_le16
  value ← front (less_u8 entry_len 4)
  need (less_u8 entry_len 4) (λ _. tt)
  return (record {
    handle = handle;
    end_group_handle = end_group_handle;
    value = value;
    value_len = less_u8 entry_len 4;
  })

read_group-Parses : (entry_len : ℕ) → Parses (read_group entry_len) (list_group entry_len)
unfolding read_group list_group
read_group-Parses entry_len = bind-Parses _ _ remaining-Parses λ left.
    bind-Parses _ _ (fail_if-Parses (left == 0) buffer_underflow) λ _.
      bind-Parses _ _ (fail_if-Parses (ltb left entry_len) buffer_underflow) λ _.
        bind-Parses _ _ read_le16-Views λ handle.
          bind-Parses _ _ read_le16-Views λ end_group_handle.
            bind-Parses _ _ (peek-Parses (less_u8 entry_len 4)) λ value.
              bind-Parses _ _ (skip-Views (less_u8 entry_len 4)) λ _. return-Parses (record {
                handle = handle;
                end_group_handle = end_group_handle;
                value = value;
                value_len = less_u8 entry_len 4;
              })

-- The bytes of an entry, and those behind it.
abbrev with_rest : Group → List ℕ → List ℕ
with_rest g rest =
    Endian.write_le16 g.handle ++ (Endian.write_le16 g.end_group_handle ++ (g.value ++ rest))

length-with_rest :
    (g : Group) (rest : List ℕ) → length (with_rest g rest) ≡ 4 + (length g.value + length rest)
unfolding Endian.write_le16
length-with_rest g rest = omega (arith, length-append g.value rest)

group_bytes-rest : (g : Group) (rest : List ℕ) → group_bytes g ++ rest ≡ with_rest g rest
unfolding Endian.write_le16
group_bytes-rest g rest = refl

list_group_lem :
    (g : Group) (n : ℕ) (rest : List ℕ)
    → HasLength n g
    → n + 4 < 256
    → list_group (n + 4) (with_rest g rest) ≡ (ok (entry_of g), rest)
unfolding list_group
list_group_lem g n rest (len, small, small') fits =
    let value_len : less_u8 (n + 4) 4 ≡ length g.value = omega (arith, len) in
    let some_left : (length (with_rest g rest) == 0) ≡ false =
      ground (arith, length-with_rest g rest) in
    let enough : ltb (length (with_rest g rest)) (n + 4) ≡ false =
      ground (arith, len, length-with_rest g rest) in
    rw
      (
        some_left,
        enough,
        le16_needed g.handle (Endian.write_le16 g.end_group_handle ++ (g.value ++ rest)) small,
        le16_needed g.end_group_handle (g.value ++ rest) small',
        value_len,
        payload_front g.value rest,
        payload_needed (λ _. tt) g.value rest,
      )
      refl

-- Less than an entry is none.
list_group_end :
    (n : ℕ) (rest : List ℕ) → length rest < n → (list_group n rest).0 ≡ err buffer_underflow
unfolding list_group
list_group_end n [] h = refl
list_group_end n (x ∷ rest) h =
    let some_left : (length (x ∷ rest) == 0) ≡ false = ground arith in
    let short : ltb (length (x ∷ rest)) n ≡ true = ground arith in rw (some_left, short) refl

-- `while (bt_att_read_by_group_type_response_iter_next(&it, &entry) == BT_OK)`: the entries in turn.
abbrev pub more_groups : Result GroupEntry → (Iter → List GroupEntry) → Iter → List GroupEntry
more_groups (ok a) rest it = a ∷ rest it
more_groups (err _) rest it = []

unfoldable pub groups : ℕ → Iter → List GroupEntry
groups zero it = []
groups (suc fuel) it =
    let (entry, it') = read_by_group_type_iter_next it in more_groups entry (groups fuel) it'

groups_next :
    (fuel m : ℕ) (r : Reader) (a : GroupEntry)
    → (read_group m r).0 ≡ ok a
    → groups (suc fuel) (record { r = r; entry_len = m })
      ≡ a ∷ groups fuel (record { r = (read_group m r).1; entry_len = m })
unfolding groups read_by_group_type_iter_next
groups_next fuel m r a h =
    ap (λ q. more_groups q (groups fuel) (record { r = (read_group m r).1; entry_len = m })) h

groups_end :
    (fuel m : ℕ) (r : Reader)
    → (read_group m r).0 ≡ err buffer_underflow
    → groups (suc fuel) (record { r = r; entry_len = m }) ≡ []
unfolding groups read_by_group_type_iter_next
groups_end fuel m r h =
    ap (λ q. more_groups q (groups fuel) (record { r = (read_group m r).1; entry_len = m })) h

groups-Views :
    (n : ℕ) (gs : List Group) (rest : List ℕ) (r : Reader)
    → n + 4 < 256
    → length rest < n + 4
    → All (HasLength n) gs
    → Views r (all_groups gs ++ rest)
    → groups (suc (length gs)) (record { r = r; entry_len = n + 4 }) ≡ map entry_of gs
groups-Views n [] rest r fits cut h v =
    groups_end 0 (n + 4) r
      (Refuses-of (read_group-Parses (n + 4)) (list_group_end (n + 4) rest cut) r v)
groups-Views n (g ∷ gs) rest r fits cut (h, hs) v =
    let others = all_groups gs ++ rest in
    let v' : Views r (with_rest g others) =
      subst (Views r)
        (append_assoc (group_bytes g) (all_groups gs) rest ∙ group_bytes-rest g others) v in
    let (result, views) =
      Reads-of (read_group-Parses (n + 4)) (list_group_lem g n others h fits) r v' in
    groups_next (suc (length gs)) (n + 4) r (entry_of g) result
    ∙ ap (◌∷◌ (entry_of g)) (groups-Views n gs rest (read_group (n + 4) r).1 fits cut hs views)

list_entry_len : ℕ → Action (List ℕ) ℕ
list_entry_len least = do
  entry_len ← need 1 (λ p. at p 0)
  fail_if (ltb entry_len least) invalid_argument
  return entry_len

read_entry_len-Parses : (least : ℕ) → Parses (read_entry_len least) (list_entry_len least)
unfolding read_entry_len list_entry_len
read_entry_len-Parses least = bind-Parses _ _ read_u8-Views λ entry_len.
    bind-Parses _ _ (fail_if-Parses (ltb entry_len least) invalid_argument)
      λ _. return-Parses entry_len

list_entry_len_lem : (n : ℕ) (l : List ℕ) → list_entry_len 4 ((n + 4) ∷ l) ≡ (ok (n + 4), l)
unfolding list_entry_len
list_entry_len_lem n l = let enough : ltb (n + 4) 4 ≡ false = ground arith in rw enough refl

-- Iterating over a response to Read By Group Type gives exactly the groups that it holds, in order, when
-- their values have `n` bytes and the length of an entry fits a byte; an entry that is cut off behind
-- them is not given. The fuel is one more than the number of groups.
pub groups-all_groups :
    (n : ℕ) (gs : List Group) (rest : List ℕ) (len : ℕ)
    → n + 4 < 256
    → length rest < n + 4
    → All (HasLength n) gs
    → len ≡ length ((n + 4) ∷ all_groups gs ++ rest)
    → len < size_mod
    → (it : Iter) × (read_by_group_type_iter_init ((n + 4) ∷ all_groups gs ++ rest) len ≡ ok it)
      × (groups (suc (length gs)) it ≡ map entry_of gs)
unfolding read_by_group_type_iter_init
groups-all_groups n gs rest len fits cut h e small =
    let bytes = (n + 4) ∷ all_groups gs ++ rest in
    let r = reader_init bytes len in
    let r' = (read_entry_len 4 r).1 in
    let (result, views) =
      Reads-of (read_entry_len-Parses 4) (list_entry_len_lem n (all_groups gs ++ rest)) r
        (reader_init-Views_all bytes e small) in
    let p : read_entry_len 4 r ≡ (ok (n + 4), r') = ap (λ (q : Result ℕ). (q, r')) result in
    (record { r = r'; entry_len = n + 4 }, ap started p, groups-Views n gs rest r' fits cut h views)
