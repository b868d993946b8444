-- ===== src/HidReport/Items.antt =====
-- core/hid/report_parser.c: the items of a report descriptor, and the loop over them.
use aros_bluzing.Prelude.{
  ℕ, zero, suc, ◌-◌, ◌%◌, ◌^◌, ◌≤◌, ◌<◌, ◌≡◌, refl, List, [], ◌∷◌, length, length-append, drop, All,
  ltb, ◌==◌, not, ◌&&◌, ◌||◌, if◌then◌else◌, Bool, true, false, Bool-cases, Option, none, some, ◌⊎◌,
  inl, inr, bit_and, arith,
}
use mathlib.Core.Path.{subst}
use aros_bluzing.Status.{Result, ok, err, Error, invalid_argument, no_resources}
use aros_bluzing.Endian.{at, shr}
use aros_bluzing.Buffer.{add_size, sub_size, size_mod}
use aros_bluzing.HidReport.{
  Descriptor, Globals, Locals, Parser, max_local_usages, global_stack_max, parser_init, set_globals,
  pop_globals, global_item, local_item, after_main, main_item, item_len, short_item, at_offset,
  parse_round, finish, go_on, parse_loop, report_parse, read_unsigned,
}
use aros_bluzing.HidReport.Bounds.{IsDescriptor}
use aros_bluzing.HidReport.Parsing.{Yields, add_input-Yields}

abbrev pub IsCounted : Globals → Type 0
IsCounted g = g.report_count < 2 ^ 16

-- The invariant of the loop: the arrays of the function do not overflow either.
pub record IsParser (p : Parser) : Type 0 where
  pub out : IsDescriptor p.out
  pub globals : IsCounted p.globals
  pub stack : All IsCounted p.stack
  pub depth : length p.stack ≤ global_stack_max
  pub usages : length p.locals.usages ≤ max_local_usages

abbrev pub IsRefusal : Error → Type 0
IsRefusal e = (e ≡ invalid_argument) ⊎ (e ≡ no_resources)

abbrev pub Continues : Result Parser → Type 0
Continues (err e) = IsRefusal e
Continues (ok p) = IsParser p

-- A case of a switch.
Continues-if :
    (b : Bool) (x y : Result Parser)
    → (b ≡ true → Continues x)
    → (b ≡ false → Continues y)
    → Continues (if b then x else y)
Continues-if true x y f g = f refl
Continues-if false x y f g = g refl

popped : (p : Parser) (s : List Globals) → p.stack ≡ s → IsParser p → Continues (pop_globals p s)
popped p [] e v = inl refl
popped p (g ∷ s) e v =
    let stack : All IsCounted (g ∷ s) = subst (All IsCounted) e v.stack in
    let depth : length (g ∷ s) ≤ global_stack_max =
      subst (λ l. length l ≤ global_stack_max) e v.depth in
    record {
      out = v.out;
      globals = stack.0;
      stack = stack.1;
      depth = omega (arith, depth);
      usages = v.usages;
    }

with_globals : (p : Parser) (g : Globals) → IsCounted g → IsParser p → Continues (set_globals p g)
with_globals p g h v = record {
  out = v.out;
  globals = h;
  stack = v.stack;
  depth = v.depth;
  usages = v.usages;
}

global_item-Continues :
    (tag value : ℕ) (item : List ℕ) (item_size : ℕ) (p : Parser)
    → IsParser p
    → Continues (global_item tag value item item_size p)
unfolding global_item
global_item-Continues tag value item item_size p v =
    Continues-if (tag == 0) _ _ (λ _. with_globals p _ v.globals v)
      (λ _.
        Continues-if (tag == 1) _ _ (λ _. with_globals p _ v.globals v)
          (λ _.
            Continues-if (tag == 2) _ _ (λ _. with_globals p _ v.globals v)
              (λ _.
                Continues-if (tag == 7) _ _ (λ _. with_globals p _ v.globals v)
                  (λ _.
                    Continues-if (tag == 8) _ _
                      (λ _.
                        Continues-if ((value == 0) || ltb (2 ^ 8 - 1) value) _ _ (λ _. inl refl)
                          (λ _. record {
                            out = record {
                              fields = v.out.fields;
                              reports = v.out.reports;
                              bits = v.out.bits;
                              placed = v.out.placed;
                            };
                            globals = v.globals;
                            stack = v.stack;
                            depth = v.depth;
                            usages = v.usages;
                          }))
                      (λ _.
                        Continues-if (tag == 9) _ _ (λ _. with_globals p _ (omega arith) v)
                          (λ _.
                            Continues-if (tag == 10) _ _
                              (λ _.
                                Continues-if (length p.stack == global_stack_max) _ _
                                  (λ _. inr refl)
                                  (λ free. record {
                                    out = v.out;
                                    globals = v.globals;
                                    stack = (v.globals, v.stack);
                                    depth = ground (arith, v.depth);
                                    usages = v.usages;
                                  }))
                              (λ _.
                                Continues-if (tag == 11) _ _ (λ _. popped p p.stack refl v)
                                  (λ _. v))))))))

with_locals :
    (p : Parser) (l : Locals)
    → length l.usages ≤ max_local_usages
    → IsParser p
    → IsParser (record p { locals = l })
with_locals p l h v = record {
  out = v.out;
  globals = v.globals;
  stack = v.stack;
  depth = v.depth;
  usages = h;
}

local_item-Continues :
    (tag value : ℕ) (p : Parser) → IsParser p → Continues (local_item tag value p)
unfolding local_item
local_item-Continues tag value p v =
    Continues-if (tag == 0) _ _
      (λ _.
        Continues-if (length p.locals.usages == max_local_usages) _ _ (λ _. inr refl)
          (λ free.
            with_locals p _
              (ground (arith, v.usages, length-append p.locals.usages (value % 2 ^ 16 ∷ []))) v))
      (λ _.
        Continues-if (tag == 1) _ _ (λ _. with_locals p _ v.usages v)
          (λ _. Continues-if (tag == 2) _ _ (λ _. with_locals p _ v.usages v) (λ _. v)))

after_main-Continues :
    (p : Parser) (r : Result Descriptor) → IsParser p → Yields r → Continues (after_main p r)
after_main-Continues p (err e) v y = y
after_main-Continues p (ok d) v y = record {
  out = y;
  globals = v.globals;
  stack = v.stack;
  depth = v.depth;
  usages = omega arith;
}

Yields-if : (b : Bool) (x y : Result Descriptor) → Yields x → Yields y → Yields (if b then x else y)
Yields-if true x y f g = f
Yields-if false x y f g = g

main_item-Continues :
    (tag value item_size : ℕ) (p : Parser)
    → IsParser p
    → Continues (main_item tag value item_size p)
unfolding main_item
main_item-Continues tag value item_size p v = after_main-Continues p _ v (
    Yields-if (tag == 8) _ _
      (add_input-Yields p.out p.globals p.locals (value % 2 ^ 16) v.out v.globals)
      (Yields-if ((tag == 12) && not (item_size == 0)) _ _ (inl refl)
        (Yields-if ((tag == 10) && not (item_size == 1)) _ _ (inl refl) v.out)))

short_item-Continues :
    (prefix : ℕ) (item : List ℕ) (p : Parser) → IsParser p → Continues (short_item prefix item p)
unfolding short_item
short_item-Continues prefix item p v =
    let type = bit_and (shr prefix 2) 0x03 in
    let tag = shr prefix 4 in
    let value = read_unsigned item (item_len prefix) in
    Continues-if (type == 1) _ _ (λ _. global_item-Continues tag value item (item_len prefix) p v)
      (λ _.
        Continues-if (type == 2) _ _ (λ _. local_item-Continues tag value p v)
          (λ _.
            Continues-if (type == 0) _ _ (λ _. main_item-Continues tag value (item_len prefix) p v)
              (λ _. v)))

-- A round goes on within the bytes, or refuses.
abbrev pub Advances : ℕ → ℕ → Result (ℕ × Parser) → Type 0
Advances offset len (err e) = IsRefusal e
Advances offset len (ok (next, p)) = (offset < next) × (next ≤ len) × IsParser p

Advances-if :
    (offset len : ℕ) (b : Bool) (x y : Result (ℕ × Parser))
    → (b ≡ true → Advances offset len x)
    → (b ≡ false → Advances offset len y)
    → Advances offset len (if b then x else y)
Advances-if offset len true x y f g = f refl
Advances-if offset len false x y f g = g refl

at_offset-Advances :
    (offset len next : ℕ) (r : Result Parser)
    → offset < next
    → next ≤ len
    → Continues r
    → Advances offset len (at_offset next r)
at_offset-Advances offset len next (err e) a b c = c
at_offset-Advances offset len next (ok p) a b c = (a, b, c)

parse_round-Advances :
    (bytes : List ℕ) (len offset : ℕ) (p : Parser)
    → len < size_mod
    → offset < len
    → IsParser p
    → Advances offset len (parse_round bytes len offset p)
unfolding parse_round
parse_round-Advances bytes len offset p small h v =
    let next = add_size offset 1 in
    let prefix = at bytes offset in
    Advances-if offset len (prefix == 0xfe) _ _
      (λ _.
        Advances-if offset len (ltb (sub_size len next) 2) _ _ (λ _. inl refl)
          (λ a.
            Advances-if offset len (ltb (sub_size len (add_size next 2)) (at bytes next)) _ _
              (λ _. inl refl) (λ b. (ground (arith, a, b), ground (arith, a, b), v))))
      (λ _.
        Advances-if offset len (ltb (sub_size len next) (item_len prefix)) _ _ (λ _. inl refl)
          (λ a.
            at_offset-Advances offset len (add_size next (item_len prefix)) _ (ground (arith, a))
              (ground (arith, a)) (short_item-Continues prefix (drop next bytes) p v)))

-- The outcome of the parse.
abbrev pub Parses : Option (Result Descriptor) → Type 0
Parses none = ⊥
Parses (some (err e)) = IsRefusal e
Parses (some (ok d)) = IsDescriptor d × (1 ≤ length d.reports)

finish-Parses : (d : Descriptor) → IsDescriptor d → Parses (some (finish d))
finish-Parses d v = elim (Bool-cases (length d.reports == 0)) [
  | inl e ↦ rw e (inl refl)
  | inr e ↦ rw e (v, ground arith)
]

go_on-Parses :
    (offset len : ℕ) (rest : ℕ → Parser → Option (Result Descriptor)) (r : Result (ℕ × Parser))
    → ((next : ℕ) (p : Parser) → offset < next → next ≤ len → IsParser p → Parses (rest next p))
    → Advances offset len r
    → Parses (go_on rest r)
go_on-Parses offset len rest (err e) f a = a
go_on-Parses offset len rest (ok (next, p)) f (a, b, v) = f next p a b v

parse_loop-Parses :
    (fuel : ℕ) (bytes : List ℕ) (len offset : ℕ) (p : Parser)
    → len < size_mod
    → offset ≤ len
    → len - offset ≤ fuel
    → IsParser p
    → Parses (parse_loop fuel bytes len offset p)
unfolding parse_loop
parse_loop-Parses zero bytes len offset p small h f v =
    let done : ltb offset len ≡ false = ground arith in rw done (finish-Parses p.out v.out)
parse_loop-Parses (suc fuel) bytes len offset p small h f v = elim (Bool-cases (ltb offset len)) [
  | inl e ↦ rw e (
      go_on-Parses offset len (λ next q. parse_loop fuel bytes len next q)
        (parse_round bytes len offset p)
        (λ next q a b w. parse_loop-Parses fuel bytes len next q small b (omega arith) w)
        (parse_round-Advances bytes len offset p small (ground arith) v))
  | inr e ↦ rw e (finish-Parses p.out v.out)
]

parser_init-IsParser : IsParser parser_init
parser_init-IsParser = record {
  out = record { fields = omega arith; reports = omega arith; bits = tt; placed = tt };
  globals = omega arith;
  stack = tt;
  depth = omega arith;
  usages = omega arith;
}

-- The parse of any bytes ends, and refuses them as an invalid argument or for want of room, or gives
-- a descriptor with one to 16 reports of less than 2^16 bits and at most 128 fields, each with
-- numbers of at most 32 bits that lie within the bits of the field's report.
pub report_parse-Parses :
    (bytes : List ℕ) → length bytes < size_mod → Parses (report_parse bytes (length bytes))
unfolding report_parse
report_parse-Parses bytes small =
    parse_loop-Parses (length bytes) bytes (length bytes) 0 parser_init small (omega arith)
      (omega arith) parser_init-IsParser
