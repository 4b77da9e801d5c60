-- ===== src/Nghttp2/Downcase.antt =====
-- src/nghttp2/lib/nghttp2_helper.c, `nghttp2_downcase`: a table of the 256 bytes.
use dusty.Base.{
  ℕ, ◌≡◌, refl, Bool, true, List, [], ◌∷◌, All, ◌==◌, ==_iff, get_or, to_lower, lowered,
  eql_ignore_case, eql_ignore_case_iff, ◌↔◌, sym, ◌∙◌,
}
use dusty.Base.Bits.{IsByte, holds_below, holds_below_sound}

abbrev pub downcase_tbl : List ℕ
downcase_tbl =
    0 ∷ 1 ∷ 2 ∷ 3 ∷ 4 ∷ 5 ∷ 6 ∷ 7 ∷ 8 ∷ 9 ∷ 10 ∷ 11 ∷ 12 ∷ 13 ∷ 14 ∷ 15 ∷ 16 ∷ 17 ∷ 18 ∷ 19 ∷ 20
    ∷ 21 ∷ 22 ∷ 23 ∷ 24 ∷ 25 ∷ 26 ∷ 27 ∷ 28 ∷ 29 ∷ 30 ∷ 31 ∷ 32 ∷ 33 ∷ 34 ∷ 35 ∷ 36 ∷ 37 ∷ 38 ∷ 39
    ∷ 40 ∷ 41 ∷ 42 ∷ 43 ∷ 44 ∷ 45 ∷ 46 ∷ 47 ∷ 48 ∷ 49 ∷ 50 ∷ 51 ∷ 52 ∷ 53 ∷ 54 ∷ 55 ∷ 56 ∷ 57 ∷ 58
    ∷ 59 ∷ 60 ∷ 61 ∷ 62 ∷ 63 ∷ 64 ∷ 97 ∷ 98 ∷ 99 ∷ 100 ∷ 101 ∷ 102 ∷ 103 ∷ 104 ∷ 105 ∷ 106 ∷ 107
    ∷ 108 ∷ 109 ∷ 110 ∷ 111 ∷ 112 ∷ 113 ∷ 114 ∷ 115 ∷ 116 ∷ 117 ∷ 118 ∷ 119 ∷ 120 ∷ 121 ∷ 122 ∷ 91
    ∷ 92 ∷ 93 ∷ 94 ∷ 95 ∷ 96 ∷ 97 ∷ 98 ∷ 99 ∷ 100 ∷ 101 ∷ 102 ∷ 103 ∷ 104 ∷ 105 ∷ 106 ∷ 107 ∷ 108
    ∷ 109 ∷ 110 ∷ 111 ∷ 112 ∷ 113 ∷ 114 ∷ 115 ∷ 116 ∷ 117 ∷ 118 ∷ 119 ∷ 120 ∷ 121 ∷ 122 ∷ 123 ∷ 124
    ∷ 125 ∷ 126 ∷ 127 ∷ 128 ∷ 129 ∷ 130 ∷ 131 ∷ 132 ∷ 133 ∷ 134 ∷ 135 ∷ 136 ∷ 137 ∷ 138 ∷ 139 ∷ 140
    ∷ 141 ∷ 142 ∷ 143 ∷ 144 ∷ 145 ∷ 146 ∷ 147 ∷ 148 ∷ 149 ∷ 150 ∷ 151 ∷ 152 ∷ 153 ∷ 154 ∷ 155 ∷ 156
    ∷ 157 ∷ 158 ∷ 159 ∷ 160 ∷ 161 ∷ 162 ∷ 163 ∷ 164 ∷ 165 ∷ 166 ∷ 167 ∷ 168 ∷ 169 ∷ 170 ∷ 171 ∷ 172
    ∷ 173 ∷ 174 ∷ 175 ∷ 176 ∷ 177 ∷ 178 ∷ 179 ∷ 180 ∷ 181 ∷ 182 ∷ 183 ∷ 184 ∷ 185 ∷ 186 ∷ 187 ∷ 188
    ∷ 189 ∷ 190 ∷ 191 ∷ 192 ∷ 193 ∷ 194 ∷ 195 ∷ 196 ∷ 197 ∷ 198 ∷ 199 ∷ 200 ∷ 201 ∷ 202 ∷ 203 ∷ 204
    ∷ 205 ∷ 206 ∷ 207 ∷ 208 ∷ 209 ∷ 210 ∷ 211 ∷ 212 ∷ 213 ∷ 214 ∷ 215 ∷ 216 ∷ 217 ∷ 218 ∷ 219 ∷ 220
    ∷ 221 ∷ 222 ∷ 223 ∷ 224 ∷ 225 ∷ 226 ∷ 227 ∷ 228 ∷ 229 ∷ 230 ∷ 231 ∷ 232 ∷ 233 ∷ 234 ∷ 235 ∷ 236
    ∷ 237 ∷ 238 ∷ 239 ∷ 240 ∷ 241 ∷ 242 ∷ 243 ∷ 244 ∷ 245 ∷ 246 ∷ 247 ∷ 248 ∷ 249 ∷ 250 ∷ 251 ∷ 252
    ∷ 253 ∷ 254 ∷ 255 ∷ []

unfoldable pub downcase : List ℕ → List ℕ
downcase [] = []
downcase (b ∷ bs) = get_or downcase_tbl b 0 ∷ downcase bs

table_agrees : Bool
unfolding holds_below
table_agrees = holds_below 256 (λ b. get_or downcase_tbl b 0 == to_lower b)

table_does_agree : table_agrees ≡ true
unfolding table_agrees
table_does_agree = refl

entry-to_lower : (b : ℕ) → IsByte b → get_or downcase_tbl b 0 ≡ to_lower b
unfolding table_agrees
entry-to_lower b h =
    (==_iff _ _).0
      (holds_below_sound 256 (λ b. get_or downcase_tbl b 0 == to_lower b) b table_does_agree h)

downcase-lowered : (bs : List ℕ) → All IsByte bs → downcase bs ≡ lowered bs
unfolding downcase
downcase-lowered [] h = refl
downcase-lowered (b ∷ bs) h = rw (entry-to_lower b h.0) (rw (downcase-lowered bs h.1) refl)

-- Two byte strings are the same after nghttp2_downcase just when they are equal but for the case of
-- ASCII letters, as std.ascii.eqlIgnoreCase tells it: the C library and the Zig code agree on which
-- names of header fields are one name.
pub downcase-eql_ignore_case :
    (xs ys : List ℕ)
    → All IsByte xs
    → All IsByte ys
    → (downcase xs ≡ downcase ys) ↔ (eql_ignore_case xs ys ≡ true)
downcase-eql_ignore_case xs ys h g =
    let same = eql_ignore_case_iff xs ys in
    let a = downcase-lowered xs h in
    let b = downcase-lowered ys g in ((λ e. same.1 (sym a ∙ e ∙ b)), (λ e. a ∙ same.0 e ∙ sym b))
