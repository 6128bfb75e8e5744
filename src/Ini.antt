-- ===== src/Ini.antt =====
-- shared/ini.h: the reader of voice.ini. A text is the list of its character codes, and a file the list
-- of its lines. The warnings go to stderr and are left out. `std::stof` is an argument.
use Prim.Native.Char.{code}
use Prim.Native.String.{String}
use omp_voice.Base.Float.{FloatOps}
use omp_voice.Base.{
  ℕ, ◌+◌, ◌*◌, ◌-◌, ◌^◌, ◌≡◌, ◌↔◌, refl, Bool, true, false, not, ◌&&◌, ◌||◌, List, [], ◌∷◌, Option,
  none, some, Map, lookup, put, nat_beq, ltb, leb, length, take, drop, arith, Eq, ◌==◌,
  if◌then◌else◌, map,
}

-- The codes of an ASCII text.
abbrev pub codes : String → List ℕ
codes String.[] = []
codes (String.◌∷◌ c s) = code c ∷ codes s

unfoldable pub text_beq : List ℕ → List ℕ → Bool
text_beq [] [] = true
text_beq [] (y ∷ ys) = false
text_beq (x ∷ xs) [] = false
text_beq (x ∷ xs) (y ∷ ys) = nat_beq x y && text_beq xs ys

pub text_beq_iff : (xs ys : List ℕ) → (text_beq xs ys ≡ true) ↔ (xs ≡ ys)
unfolding text_beq
text_beq_iff [] [] = (λ e. refl, λ e. refl)
text_beq_iff [] (y ∷ ys) = (λ e. cc, λ e. cc)
text_beq_iff (x ∷ xs) [] = (λ e. cc, λ e. cc)
text_beq_iff (x ∷ xs) (y ∷ ys) =
    let rest = text_beq_iff xs ys in (λ e. ground (arith, rest), λ e. ground (arith, rest))

instance abbrev pub text_eq : Eq (List ℕ)
text_eq = record { beq = text_beq; beq_iff = text_beq_iff }

abbrev pub Table : Type 0
Table = Map (List ℕ) (Map (List ℕ) (List ℕ))

-- `std::tolower` in the "C" locale.
abbrev pub to_lower : ℕ → ℕ
to_lower c = if leb 65 c && leb c 90 then c + 32 else c

abbrev pub lower : List ℕ → List ℕ
lower s = map to_lower s

-- One of " \t\r\n".
abbrev pub is_blank : ℕ → Bool
is_blank c = nat_beq c 32 || (nat_beq c 9 || (nat_beq c 13 || nat_beq c 10))

unfoldable pub trim_front : List ℕ → List ℕ
trim_front [] = []
trim_front (c ∷ cs) = let rest = trim_front cs in if is_blank c then rest else c ∷ cs

unfoldable pub trim_back : List ℕ → List ℕ
trim_back [] = []
trim_back (c ∷ cs) =
    let rest = trim_back cs in if is_blank c && nat_beq (length rest) 0 then [] else c ∷ rest

unfoldable pub trim : List ℕ → List ℕ
unfolding trim_front trim_back
trim s = trim_back (trim_front s)

-- What stands before the first of ";#".
unfoldable pub strip_comment : List ℕ → List ℕ
strip_comment [] = []
strip_comment (c ∷ cs) =
    let rest = strip_comment cs in if nat_beq c 59 || nat_beq c 35 then [] else c ∷ rest

-- What stands before and after the first '='.
unfoldable pub split_eq : List ℕ → Option (List ℕ × List ℕ)
split_eq [] = none
split_eq (c ∷ cs) =
    let rest = split_eq cs in
    if nat_beq c 61
    then some ([], cs)
    else elim rest [ none ↦ none | some (k, v) ↦ some (c ∷ k, v) ]

abbrev pub front : List ℕ → ℕ
front [] = 0
front (c ∷ cs) = c

abbrev pub back : List ℕ → ℕ
back [] = 0
back (c ∷ []) = c
back (c ∷ d ∷ cs) = back (d ∷ cs)

-- m_[section][k] = v.
unfoldable pub assign : List ℕ → List ℕ → List ℕ → Table → Table
assign section k v m = put section (put k v (elim (lookup section m) [ none ↦ [] | some s ↦ s ])) m

-- A line, with the section that it stands in: the section and the table after it.
unfoldable pub load_line : List ℕ → List ℕ → Table → List ℕ × Table
unfolding trim strip_comment split_eq assign
load_line line section m =
    let t = trim (strip_comment line) in
    if nat_beq (length t) 0
    then (section, m)
    else if nat_beq (front t) 91 && nat_beq (back t) 93
    then (lower (trim (take (length t - 2) (drop 1 t))), m)
    else elim (split_eq t) [
      | none ↦ (section, m)
      | some (k, v) ↦ (section, assign section (lower (trim k)) (trim v) m)
    ]

unfoldable pub load_lines : List (List ℕ) → List ℕ → Table → Table
unfolding load_line
load_lines [] section m = m
load_lines (l ∷ ls) section m =
    let (section', m') = load_line l section m in load_lines ls section' m'

unfoldable pub str : Table → List ℕ → List ℕ → List ℕ → List ℕ
str m sec key def = elim (lookup (lower sec) m) [
  | none ↦ def
  | some s ↦ elim (lookup (lower key) s) [ none ↦ def | some v ↦ v ]
]

-- `std::stoi`: blanks, a sign and digits; what follows is left. `none` is an exception: no digit, or
-- a number outside `int`. The number comes as whether it is below 0, and its size.
abbrev pub is_space : ℕ → Bool
is_space c = nat_beq c 32 || leb 9 c && leb c 13

unfoldable pub skip_space : List ℕ → List ℕ
skip_space [] = []
skip_space (c ∷ cs) = let rest = skip_space cs in if is_space c then rest else c ∷ cs

abbrev pub is_digit : ℕ → Bool
is_digit c = leb 48 c && leb c 57

unfoldable pub digits_from : ℕ → List ℕ → ℕ
digits_from acc [] = acc
digits_from acc (c ∷ cs) =
    let rest = digits_from (acc * 10 + (c - 48)) cs in if is_digit c then rest else acc

abbrev pub int_of : Bool → List ℕ → Option (Bool × ℕ)
int_of below cs =
    let n = digits_from 0 cs in
    if not (is_digit (front cs))
    then none
    else if ltb (if below then 2 ^ 31 else 2 ^ 31 - 1) n
    then none
    else some (below && not (nat_beq n 0), n)

unfoldable pub stoi : List ℕ → Option (Bool × ℕ)
unfolding skip_space digits_from
stoi s =
    let t = skip_space s in
    if nat_beq (front t) 45
    then int_of true (drop 1 t)
    else if nat_beq (front t) 43
    then int_of false (drop 1 t)
    else int_of false t

-- The limits of each call are not below 0, so that a number below 0 is out of range.
unfoldable pub get_int : Table → List ℕ → List ℕ → ℕ → ℕ → ℕ → ℕ
unfolding str stoi
get_int m sec key def lo hi =
    let v = str m sec key [] in
    if nat_beq (length v) 0 then def else elim (stoi v) [
      | none ↦ def
      | some (below, n) ↦ if below || (ltb n lo || ltb hi n) then def else n
    ]

unfoldable pub get_bool : Table → List ℕ → List ℕ → Bool → Bool
unfolding str
get_bool m sec key def =
    let v = lower (str m sec key []) in
    if nat_beq (length v) 0
    then def
    else if v == codes "true" || (v == codes "1" || (v == codes "yes" || v == codes "on"))
    then true
    else if v == codes "false" || (v == codes "0" || (v == codes "no" || v == codes "off"))
    then false
    else def

-- The index of the first option that is the value.
unfoldable pub index_of : List ℕ → List (List ℕ) → Option ℕ
index_of v [] = none
index_of v (o ∷ os) =
    let rest = index_of v os in
    if v == o then some 0 else elim rest [ none ↦ none | some i ↦ some (i + 1) ]

unfoldable pub get_enum : Table → List ℕ → List ℕ → List (List ℕ) → ℕ → ℕ
unfolding str index_of
get_enum m sec key opts def =
    let v = lower (str m sec key []) in
    if nat_beq (length v) 0 then def else elim (index_of v opts) [ none ↦ def | some i ↦ i ]

-- `std::stof`, where `none` is an exception.
pub record FloatReader (F : Type 0) : Type 0 where
  pub stof : List ℕ → Option F

unfoldable pub get_float :
    {F : Type 0} ⦃fl : FloatOps F⦄ ⦃fr : FloatReader F⦄ → Table → List ℕ → List ℕ → F → F → F → F
unfolding str
get_float ⦃fl⦄ ⦃fr⦄ m sec key def lo hi =
    let v = str m sec key [] in
    if nat_beq (length v) 0
    then def
    else elim (fr.stof v) [ none ↦ def | some x ↦ if fl.lt x lo || fl.lt hi x then def else x ]
