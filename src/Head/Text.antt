-- ===== src/Head/Text.antt =====
-- The text of an IPv4 address: what `to_string` writes, `from_str` reads, and nothing else.
use vlink.Prelude.{
  ℕ, ◌+◌, ◌*◌, ◌/◌, ◌%◌, ◌^◌, ◌<◌, ◌==◌, Bool, true, false, List, [], ◌∷◌, ◌++◌, length, drop, All,
  some, ◌≡◌, ◌↔◌, refl, sym, ap, ◌∙◌, none-some, some_inj, inl, inr, ap₂, ==_iff, drop-append_len,
  Option-cases, Bool-cases, arith,
}
use mathlib.Core.List.{append-nil}
use vlink.Head.Address.{decimal, show_ip, is_digit, digits, octet, take_octet, parse_ip}

abbrev IsDigits : List ℕ → Type 0
IsDigits cs = All (λ c. is_digit c ≡ true) cs

digits-IsDigits : (cs : List ℕ) → IsDigits (digits cs)
digits-IsDigits [] = tt
digits-IsDigits (c ∷ cs) = elim (Bool-cases (is_digit c)) [
  | inl e ↦ rw (e) (e, digits-IsDigits cs)
  | inr e ↦ rw (e) tt
]

digits-drop : (cs : List ℕ) → digits cs ++ drop (length (digits cs)) cs ≡ cs
digits-drop [] = refl
digits-drop (c ∷ cs) = elim (Bool-cases (is_digit c)) [
  | inl e ↦ rw (e) (ap (◌∷◌ c) (digits-drop cs))
  | inr e ↦ rw (e) refl
]

-- A number is read only from its own text.
octet-decimal :
    (cs : List ℕ) (n : ℕ) → IsDigits cs → octet cs ≡ some n → (decimal n ≡ cs) × (n < 256)
unfolding decimal
octet-decimal [] n h e = none-some e
octet-decimal (a ∷ []) n h e = ground arith
octet-decimal (a ∷ b ∷ []) n h e = ground arith
octet-decimal (a ∷ b ∷ c ∷ []) n h e = ground arith
octet-decimal (a ∷ b ∷ c ∷ d ∷ cs) n h e = none-some e

decimal-octet : (n : ℕ) → n < 256 → IsDigits (decimal n) × (octet (decimal n) ≡ some n)
unfolding decimal
decimal-octet n h = ground arith

digits-append : (cs rest : List ℕ) → IsDigits cs → digits rest ≡ [] → digits (cs ++ rest) ≡ cs
digits-append [] rest h stop = stop
digits-append (c ∷ cs) rest h stop = rw (h.0) (ap (◌∷◌ c) (digits-append cs rest h.1 stop))

-- The dot before a number, if there is one.
abbrev lead : Bool → List ℕ → List ℕ
lead true text = 46 ∷ text
lead false text = text

read-octet :
    (text : List ℕ) (n : ℕ) (rest : List ℕ)
    → take_octet false text ≡ some (n, rest)
    → (text ≡ decimal n ++ rest) × (n < 256)
read-octet text n rest h = elim (Option-cases (octet (digits text))) [
  | inl e ↦ none-some (sym (rw (take_octet, e) refl) ∙ h)
  | inr (m, e) ↦
      let got : take_octet false text ≡ some (m, drop (length (digits text)) text) =
        rw (take_octet, e) refl in
      let same = some_inj (sym got ∙ h) in
      let read = octet-decimal (digits text) m (digits-IsDigits text) e in
      let whole : text ≡ decimal m ++ drop (length (digits text)) text =
        sym (digits-drop text) ∙ ap (λ t. t ++ drop (length (digits text)) text) (sym read.0) in
      (
        whole ∙ ap (λ (p : ℕ × List ℕ). decimal p.0 ++ p.1) same,
        rw (sym (ap (λ (p : ℕ × List ℕ). p.0) same)) read.1,
      )
]

read-take_octet :
    (dot : Bool) (text : List ℕ) (n : ℕ) (rest : List ℕ)
    → take_octet dot text ≡ some (n, rest)
    → (text ≡ lead dot (decimal n ++ rest)) × (n < 256)
read-take_octet false text n rest h = read-octet text n rest h
read-take_octet true [] n rest h = none-some h
read-take_octet true (c ∷ text) n rest h = elim (Bool-cases (c == 46)) [
  | inl e ↦
      let read = read-octet text n rest (sym (rw (e) refl) ∙ h) in
      (ap₂ (◌∷◌) ((==_iff c 46).0 e) read.0, read.1)
  | inr e ↦ none-some (sym (rw (e) refl) ∙ h)
]

take_octet-digits :
    (text ds : List ℕ) (n : ℕ)
    → digits text ≡ ds
    → octet ds ≡ some n
    → take_octet false text ≡ some (n, drop (length ds) text)
take_octet-digits text ds n e f =
    rw (take_octet, e, f) (ap (λ ds. some (n, drop (length ds) text)) e)

write-octet :
    (n : ℕ) (rest : List ℕ)
    → n < 256
    → digits rest ≡ []
    → take_octet false (decimal n ++ rest) ≡ some (n, rest)
write-octet n rest h stop =
    let num = decimal-octet n h in
    take_octet-digits (decimal n ++ rest) (decimal n) n (digits-append (decimal n) rest num.0 stop)
      num.1
    ∙ ap (λ t. some (n, t)) (drop-append_len (length (decimal n)) (decimal n) rest refl)

write-dot_octet :
    (n : ℕ) (rest : List ℕ)
    → n < 256
    → digits rest ≡ []
    → take_octet true (46 ∷ (decimal n ++ rest)) ≡ some (n, rest)
write-dot_octet n rest h stop = write-octet n rest h stop

write-last_octet : (n : ℕ) → n < 256 → take_octet true (46 ∷ decimal n) ≡ some (n, [])
write-last_octet n h =
    ap (λ t. take_octet true (46 ∷ t)) (sym (append-nil (decimal n))) ∙ write-dot_octet n [] h refl

-- An address of 32 bits by its four numbers.
abbrev of_octets : ℕ → ℕ → ℕ → ℕ → ℕ
of_octets a b c d = a * 2 ^ 24 + b * 2 ^ 16 + c * 2 ^ 8 + d

show_ip-of_octets :
    (a b c d : ℕ)
    → a < 256
    → b < 256
    → c < 256
    → d < 256
    → show_ip (of_octets a b c d)
      ≡ decimal a ++ 46 ∷ (decimal b ++ 46 ∷ (decimal c ++ 46 ∷ decimal d))
unfolding show_ip
show_ip-of_octets a b c d ha hb hc hd =
    let ea : of_octets a b c d / 2 ^ 24 % 256 ≡ a = omega arith in
    let eb : of_octets a b c d / 2 ^ 16 % 256 ≡ b = omega arith in
    let ec : of_octets a b c d / 2 ^ 8 % 256 ≡ c = omega arith in
    let ed : of_octets a b c d % 256 ≡ d = omega arith in rw (ea, eb, ec, ed) refl

parse_ip-text :
    (a b c d : ℕ)
    → a < 256
    → b < 256
    → c < 256
    → d < 256
    → parse_ip (decimal a ++ 46 ∷ (decimal b ++ 46 ∷ (decimal c ++ 46 ∷ decimal d)))
      ≡ some (of_octets a b c d)
unfolding parse_ip
parse_ip-text a b c d ha hb hc hd =
    rw
      (
        parse_ip,
        write-octet a (46 ∷ (decimal b ++ 46 ∷ (decimal c ++ 46 ∷ decimal d))) ha refl,
        write-dot_octet b (46 ∷ (decimal c ++ 46 ∷ decimal d)) hb refl,
        write-dot_octet c (46 ∷ decimal d) hc refl,
        write-last_octet d hd,
      )
      refl

of-length : (xs : List ℕ) → (length xs == 0) ≡ true → xs ≡ []
of-length [] h = refl
of-length (x ∷ xs) h = ground arith

-- Four numbers that are read one after the other up to the end of a text.
read-all :
    (text ra rb rc : List ℕ) (a b c d : ℕ)
    → take_octet false text ≡ some (a, ra)
    → take_octet true ra ≡ some (b, rb)
    → take_octet true rb ≡ some (c, rc)
    → take_octet true rc ≡ some (d, [])
    → (show_ip (of_octets a b c d) ≡ text) × (of_octets a b c d < 2 ^ 32)
read-all text ra rb rc a b c d ea eb ec ed =
    let pa = read-take_octet false text a ra ea in
    let pb = read-take_octet true ra b rb eb in
    let pc = read-take_octet true rb c rc ec in
    let pd = read-take_octet true rc d [] ed in
    let last : rc ≡ 46 ∷ decimal d = pd.0 ∙ ap (◌∷◌ 46) (append-nil (decimal d)) in
    let whole =
      pa.0
      ∙ ap (λ t. decimal a ++ t)
          (pb.0 ∙ ap (λ t. 46 ∷ (decimal b ++ t)) (pc.0 ∙ ap (λ t. 46 ∷ (decimal c ++ t)) last)) in
    (
      show_ip-of_octets a b c d pa.1 pb.1 pc.1 pd.1 ∙ sym whole,
      omega (arith, pa.1, pb.1, pc.1, pd.1),
    )

pub show_ip-parse_ip :
    (text : List ℕ) (addr : ℕ) → parse_ip text ≡ some addr → (show_ip addr ≡ text) × (addr < 2 ^ 32)
unfolding parse_ip
show_ip-parse_ip text addr h = elim (Option-cases (take_octet false text)) [
  | inl e ↦ none-some (sym (rw (parse_ip, e) refl) ∙ h)
  | inr ((a, ra), ea) ↦ elim (Option-cases (take_octet true ra)) [
    | inl e ↦ none-some (sym (rw (parse_ip, ea, e) refl) ∙ h)
    | inr ((b, rb), eb) ↦ elim (Option-cases (take_octet true rb)) [
      | inl e ↦ none-some (sym (rw (parse_ip, ea, eb, e) refl) ∙ h)
      | inr ((c, rc), ec) ↦ elim (Option-cases (take_octet true rc)) [
        | inl e ↦ none-some (sym (rw (parse_ip, ea, eb, ec, e) refl) ∙ h)
        | inr ((d, rd), ed) ↦ elim (Bool-cases (length rd == 0)) [
          | inl e ↦
              let got : parse_ip text ≡ some (of_octets a b c d) =
                rw (parse_ip, ea, eb, ec, ed, e) refl in
              let same = some_inj (sym got ∙ h) in
              let done = ed ∙ ap (λ r. some (d, r)) (of-length rd e) in
              rw (sym same) (read-all text ra rb rc a b c d ea eb ec done)
          | inr e ↦ none-some (sym (rw (parse_ip, ea, eb, ec, ed, e) refl) ∙ h)
        ]
      ]
    ]
  ]
]

parse_ip-show_ip : (addr : ℕ) → addr < 2 ^ 32 → parse_ip (show_ip addr) ≡ some addr
unfolding show_ip
parse_ip-show_ip addr h =
    parse_ip-text (addr / 2 ^ 24 % 256) (addr / 2 ^ 16 % 256) (addr / 2 ^ 8 % 256) (addr % 256)
      (omega arith) (omega arith) (omega arith) (omega arith)
    ∙ ap some (omega arith)

-- A text is read as an address exactly where the address has 32 bits and the text is the one that is
-- written for it.
pub parse_ip_iff :
    (text : List ℕ) (addr : ℕ)
    → (parse_ip text ≡ some addr) ↔ ((show_ip addr ≡ text) × (addr < 2 ^ 32))
parse_ip_iff text addr =
    (show_ip-parse_ip text addr, λ h. ap parse_ip (sym h.0) ∙ parse_ip-show_ip addr h.1)
