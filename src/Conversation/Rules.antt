-- ===== src/Conversation/Rules.antt =====
-- src/conversation/rules.py: the title that a conversation takes from its first message.
use Prim.Native.Char.{Char, code}
use ven_agent.Prelude.{
  ◌≤◌, ◌≡◌, refl, ap, inl, inr, Bool, true, false, ◌&&◌, ◌||◌, String, List, [], ◌∷◌, ◌++◌, arith,
  leb, leb→le, nat_beq, if◌then◌else◌, Bool-cases, length, length-append, take, length-take-le,
}

-- The characters of a text: Python's `list(s)`.
abbrev pub chars : String → List Char
chars String.[] = []
chars (String.◌∷◌ c s) = c ∷ chars s

-- `"".join(cs)`
abbrev pub text : List Char → String
text [] = String.[]
text (c ∷ s) = String.◌∷◌ c (text s)

-- The characters at which `str.split()` splits: those of Python's `str.isspace`.
unfoldable pub is_space : Char → Bool
is_space c =
    let n = code c in
    leb 9 n && leb n 13
    || leb 28 n && leb n 32
    || nat_beq n 0x85
    || nat_beq n 0xa0
    || nat_beq n 0x1680
    || leb 0x2000 n && leb n 0x200a
    || nat_beq n 0x2028
    || nat_beq n 0x2029
    || nat_beq n 0x202f
    || nat_beq n 0x205f
    || nat_beq n 0x3000

-- Whether a word goes on with the next character.
begins_word : List Char → Bool
begins_word [] = false
begins_word (c ∷ s) = if is_space c then false else true

extend_first : Char → List (List Char) → List (List Char)
extend_first c [] = (c ∷ []) ∷ []
extend_first c (w ∷ ws) = (c ∷ w) ∷ ws

-- `s.split()`: the maximal runs of characters that are no white space.
unfoldable pub split_words : List Char → List (List Char)
unfolding is_space begins_word extend_first
split_words [] = []
split_words (c ∷ s) =
    let rest = split_words s in
    if is_space c then rest else if begins_word s then extend_first c rest else (c ∷ []) ∷ rest

abbrev space : Char
space = " "

-- `" ".join(words)`
unfoldable pub join_words : List (List Char) → List Char
join_words [] = []
join_words (w ∷ []) = w
join_words (w ∷ v ∷ ws) = w ++ space ∷ join_words (v ∷ ws)

unfoldable pub automatic_title : String → String
unfolding split_words join_words
automatic_title content =
    let compact = join_words (split_words (chars content)) in
    if leb (length compact) 40 then text compact else text (take 40 compact ++ chars "...")

chars-text : (cs : List Char) → chars (text cs) ≡ cs
chars-text [] = refl
chars-text (c ∷ cs) = ap (λ s. c ∷ s) (chars-text cs)

pub automatic_title-length : (content : String) → length (chars (automatic_title content)) ≤ 43
unfolding automatic_title
automatic_title-length content =
    let compact = join_words (split_words (chars content)) in
    elim (Bool-cases (leb (length compact) 40)) [
      | inl short ↦ rw (short, chars-text compact) (omega (arith, leb→le (length compact) 40 short))
      | inr long ↦
          rw (long, chars-text (take 40 compact ++ chars "..."))
            (omega
              (arith, length-append (take 40 compact) (chars "..."), length-take-le 40 compact))
    ]
