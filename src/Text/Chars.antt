-- ===== src/Text/Chars.antt =====
-- src/match.c: the case tables and the character classes of IRC, and the classes' tests of
-- include/irc_string.h.
use Prim.Native.Nat.{bit_and}
use ircd_hybrid_8_cvs.Common.{
  ℕ, ◌%◌, ◌<◌, ◌≡◌, refl, sym, ap, ◌∙◌, Bool, true, false, not, List, [], ◌∷◌, get_or, ◌==◌, ◌↔◌,
  ◌&&◌, ◌||◌, ltb, arith, passes_below, passes_below_lem, ◌≢◌, ◌⊎◌,
}

-- ToLowerTab
abbrev pub to_lower_tab : List ℕ
to_lower_tab =
    0 ∷ 1 ∷ 2 ∷ 3 ∷ 4 ∷ 5 ∷ 6 ∷ 7 ∷ 8 ∷ 9 ∷ 10 ∷ 11 ∷ 12 ∷ 13 ∷ 14 ∷ 15 ∷ 16 ∷ 17 ∷ 18 ∷ 19 ∷ 20
    ∷ 21 ∷ 22 ∷ 23 ∷ 24 ∷ 25 ∷ 26 ∷ 27 ∷ 28 ∷ 29 ∷ 30 ∷ 31 ∷ 32 ∷ 33 ∷ 34 ∷ 35 ∷ 36 ∷ 37 ∷ 38 ∷ 39
    ∷ 40 ∷ 41 ∷ 42 ∷ 43 ∷ 44 ∷ 45 ∷ 46 ∷ 47 ∷ 48 ∷ 49 ∷ 50 ∷ 51 ∷ 52 ∷ 53 ∷ 54 ∷ 55 ∷ 56 ∷ 57 ∷ 58
    ∷ 59 ∷ 60 ∷ 61 ∷ 62 ∷ 63 ∷ 64 ∷ 97 ∷ 98 ∷ 99 ∷ 100 ∷ 101 ∷ 102 ∷ 103 ∷ 104 ∷ 105 ∷ 106 ∷ 107
    ∷ 108 ∷ 109 ∷ 110 ∷ 111 ∷ 112 ∷ 113 ∷ 114 ∷ 115 ∷ 116 ∷ 117 ∷ 118 ∷ 119 ∷ 120 ∷ 121 ∷ 122 ∷ 123
    ∷ 124 ∷ 125 ∷ 126 ∷ 95 ∷ 96 ∷ 97 ∷ 98 ∷ 99 ∷ 100 ∷ 101 ∷ 102 ∷ 103 ∷ 104 ∷ 105 ∷ 106 ∷ 107 ∷ 108
    ∷ 109 ∷ 110 ∷ 111 ∷ 112 ∷ 113 ∷ 114 ∷ 115 ∷ 116 ∷ 117 ∷ 118 ∷ 119 ∷ 120 ∷ 121 ∷ 122 ∷ 123 ∷ 124
    ∷ 125 ∷ 126 ∷ 127 ∷ 128 ∷ 129 ∷ 130 ∷ 131 ∷ 132 ∷ 133 ∷ 134 ∷ 135 ∷ 136 ∷ 137 ∷ 138 ∷ 139 ∷ 140
    ∷ 141 ∷ 142 ∷ 143 ∷ 144 ∷ 145 ∷ 146 ∷ 147 ∷ 148 ∷ 149 ∷ 150 ∷ 151 ∷ 152 ∷ 153 ∷ 154 ∷ 155 ∷ 156
    ∷ 157 ∷ 158 ∷ 159 ∷ 160 ∷ 161 ∷ 162 ∷ 163 ∷ 164 ∷ 165 ∷ 166 ∷ 167 ∷ 168 ∷ 169 ∷ 170 ∷ 171 ∷ 172
    ∷ 173 ∷ 174 ∷ 175 ∷ 176 ∷ 177 ∷ 178 ∷ 179 ∷ 180 ∷ 181 ∷ 182 ∷ 183 ∷ 184 ∷ 185 ∷ 186 ∷ 187 ∷ 188
    ∷ 189 ∷ 190 ∷ 191 ∷ 192 ∷ 193 ∷ 194 ∷ 195 ∷ 196 ∷ 197 ∷ 198 ∷ 199 ∷ 200 ∷ 201 ∷ 202 ∷ 203 ∷ 204
    ∷ 205 ∷ 206 ∷ 207 ∷ 208 ∷ 209 ∷ 210 ∷ 211 ∷ 212 ∷ 213 ∷ 214 ∷ 215 ∷ 216 ∷ 217 ∷ 218 ∷ 219 ∷ 220
    ∷ 221 ∷ 222 ∷ 223 ∷ 224 ∷ 225 ∷ 226 ∷ 227 ∷ 228 ∷ 229 ∷ 230 ∷ 231 ∷ 232 ∷ 233 ∷ 234 ∷ 235 ∷ 236
    ∷ 237 ∷ 238 ∷ 239 ∷ 240 ∷ 241 ∷ 242 ∷ 243 ∷ 244 ∷ 245 ∷ 246 ∷ 247 ∷ 248 ∷ 249 ∷ 250 ∷ 251 ∷ 252
    ∷ 253 ∷ 254 ∷ 255 ∷ []

-- ToUpperTab
abbrev pub to_upper_tab : List ℕ
to_upper_tab =
    0 ∷ 1 ∷ 2 ∷ 3 ∷ 4 ∷ 5 ∷ 6 ∷ 7 ∷ 8 ∷ 9 ∷ 10 ∷ 11 ∷ 12 ∷ 13 ∷ 14 ∷ 15 ∷ 16 ∷ 17 ∷ 18 ∷ 19 ∷ 20
    ∷ 21 ∷ 22 ∷ 23 ∷ 24 ∷ 25 ∷ 26 ∷ 27 ∷ 28 ∷ 29 ∷ 30 ∷ 31 ∷ 32 ∷ 33 ∷ 34 ∷ 35 ∷ 36 ∷ 37 ∷ 38 ∷ 39
    ∷ 40 ∷ 41 ∷ 42 ∷ 43 ∷ 44 ∷ 45 ∷ 46 ∷ 47 ∷ 48 ∷ 49 ∷ 50 ∷ 51 ∷ 52 ∷ 53 ∷ 54 ∷ 55 ∷ 56 ∷ 57 ∷ 58
    ∷ 59 ∷ 60 ∷ 61 ∷ 62 ∷ 63 ∷ 64 ∷ 65 ∷ 66 ∷ 67 ∷ 68 ∷ 69 ∷ 70 ∷ 71 ∷ 72 ∷ 73 ∷ 74 ∷ 75 ∷ 76 ∷ 77
    ∷ 78 ∷ 79 ∷ 80 ∷ 81 ∷ 82 ∷ 83 ∷ 84 ∷ 85 ∷ 86 ∷ 87 ∷ 88 ∷ 89 ∷ 90 ∷ 91 ∷ 92 ∷ 93 ∷ 94 ∷ 95 ∷ 96
    ∷ 65 ∷ 66 ∷ 67 ∷ 68 ∷ 69 ∷ 70 ∷ 71 ∷ 72 ∷ 73 ∷ 74 ∷ 75 ∷ 76 ∷ 77 ∷ 78 ∷ 79 ∷ 80 ∷ 81 ∷ 82 ∷ 83
    ∷ 84 ∷ 85 ∷ 86 ∷ 87 ∷ 88 ∷ 89 ∷ 90 ∷ 91 ∷ 92 ∷ 93 ∷ 94 ∷ 127 ∷ 128 ∷ 129 ∷ 130 ∷ 131 ∷ 132 ∷ 133
    ∷ 134 ∷ 135 ∷ 136 ∷ 137 ∷ 138 ∷ 139 ∷ 140 ∷ 141 ∷ 142 ∷ 143 ∷ 144 ∷ 145 ∷ 146 ∷ 147 ∷ 148 ∷ 149
    ∷ 150 ∷ 151 ∷ 152 ∷ 153 ∷ 154 ∷ 155 ∷ 156 ∷ 157 ∷ 158 ∷ 159 ∷ 160 ∷ 161 ∷ 162 ∷ 163 ∷ 164 ∷ 165
    ∷ 166 ∷ 167 ∷ 168 ∷ 169 ∷ 170 ∷ 171 ∷ 172 ∷ 173 ∷ 174 ∷ 175 ∷ 176 ∷ 177 ∷ 178 ∷ 179 ∷ 180 ∷ 181
    ∷ 182 ∷ 183 ∷ 184 ∷ 185 ∷ 186 ∷ 187 ∷ 188 ∷ 189 ∷ 190 ∷ 191 ∷ 192 ∷ 193 ∷ 194 ∷ 195 ∷ 196 ∷ 197
    ∷ 198 ∷ 199 ∷ 200 ∷ 201 ∷ 202 ∷ 203 ∷ 204 ∷ 205 ∷ 206 ∷ 207 ∷ 208 ∷ 209 ∷ 210 ∷ 211 ∷ 212 ∷ 213
    ∷ 214 ∷ 215 ∷ 216 ∷ 217 ∷ 218 ∷ 219 ∷ 220 ∷ 221 ∷ 222 ∷ 223 ∷ 224 ∷ 225 ∷ 226 ∷ 227 ∷ 228 ∷ 229
    ∷ 230 ∷ 231 ∷ 232 ∷ 233 ∷ 234 ∷ 235 ∷ 236 ∷ 237 ∷ 238 ∷ 239 ∷ 240 ∷ 241 ∷ 242 ∷ 243 ∷ 244 ∷ 245
    ∷ 246 ∷ 247 ∷ 248 ∷ 249 ∷ 250 ∷ 251 ∷ 252 ∷ 253 ∷ 254 ∷ 255 ∷ []

-- CharAttrs
abbrev pub char_attrs : List ℕ
char_attrs =
    2 ∷ 4226 ∷ 4226 ∷ 4226 ∷ 4226 ∷ 4226 ∷ 4226 ∷ 4098 ∷ 4226 ∷ 4258 ∷ 20642 ∷ 4258 ∷ 4258 ∷ 20642
    ∷ 4226 ∷ 4226 ∷ 4226 ∷ 4226 ∷ 4226 ∷ 4226 ∷ 4226 ∷ 4226 ∷ 4226 ∷ 4226 ∷ 4226 ∷ 4226 ∷ 4226
    ∷ 4226 ∷ 4226 ∷ 4226 ∷ 4226 ∷ 4226 ∷ 33 ∷ 4481 ∷ 4225 ∷ 4737 ∷ 5249 ∷ 4225 ∷ 4737 ∷ 4225 ∷ 4225
    ∷ 4225 ∷ 12673 ∷ 4225 ∷ 4097 ∷ 7361 ∷ 15745 ∷ 4225 ∷ 7377 ∷ 7377 ∷ 7377 ∷ 7377 ∷ 7377 ∷ 7377
    ∷ 7377 ∷ 7377 ∷ 7377 ∷ 7377 ∷ 6273 ∷ 4225 ∷ 4225 ∷ 4225 ∷ 4225 ∷ 4481 ∷ 4481 ∷ 7365 ∷ 7365
    ∷ 7365 ∷ 7365 ∷ 7365 ∷ 7365 ∷ 7365 ∷ 7365 ∷ 7365 ∷ 7365 ∷ 7365 ∷ 7365 ∷ 7365 ∷ 7365 ∷ 7365
    ∷ 7365 ∷ 7365 ∷ 7365 ∷ 7365 ∷ 7365 ∷ 7365 ∷ 7365 ∷ 7365 ∷ 7365 ∷ 7365 ∷ 7365 ∷ 5317 ∷ 5317
    ∷ 5317 ∷ 5317 ∷ 5313 ∷ 5313 ∷ 7365 ∷ 7365 ∷ 7365 ∷ 7365 ∷ 7365 ∷ 7365 ∷ 7365 ∷ 7365 ∷ 7365
    ∷ 7365 ∷ 7365 ∷ 7365 ∷ 7365 ∷ 7365 ∷ 7365 ∷ 7365 ∷ 7365 ∷ 7365 ∷ 7365 ∷ 7365 ∷ 7365 ∷ 7365
    ∷ 7365 ∷ 7365 ∷ 7365 ∷ 7365 ∷ 5317 ∷ 5317 ∷ 5317 ∷ 5253 ∷ 4224 ∷ 4224 ∷ 4224 ∷ 4224 ∷ 4224
    ∷ 4224 ∷ 4224 ∷ 4224 ∷ 4224 ∷ 4224 ∷ 4224 ∷ 4224 ∷ 4224 ∷ 4224 ∷ 4224 ∷ 4224 ∷ 4224 ∷ 4224
    ∷ 4224 ∷ 4224 ∷ 4224 ∷ 4224 ∷ 4224 ∷ 4224 ∷ 4224 ∷ 4224 ∷ 4224 ∷ 4224 ∷ 4224 ∷ 4224 ∷ 4224
    ∷ 4224 ∷ 4224 ∷ 4224 ∷ 4224 ∷ 4224 ∷ 4224 ∷ 4224 ∷ 4224 ∷ 4224 ∷ 4224 ∷ 4224 ∷ 4224 ∷ 4224
    ∷ 4224 ∷ 4224 ∷ 4224 ∷ 4224 ∷ 4224 ∷ 4224 ∷ 4224 ∷ 4224 ∷ 4224 ∷ 4224 ∷ 4224 ∷ 4224 ∷ 4224
    ∷ 4224 ∷ 4224 ∷ 4224 ∷ 4224 ∷ 4224 ∷ 4224 ∷ 4224 ∷ 4224 ∷ 4224 ∷ 4224 ∷ 4224 ∷ 4224 ∷ 4224
    ∷ 4224 ∷ 4224 ∷ 4224 ∷ 4224 ∷ 4224 ∷ 4224 ∷ 4224 ∷ 4224 ∷ 4224 ∷ 4224 ∷ 4224 ∷ 4224 ∷ 4224
    ∷ 4224 ∷ 4224 ∷ 4224 ∷ 4224 ∷ 4224 ∷ 4224 ∷ 4224 ∷ 4224 ∷ 4224 ∷ 4224 ∷ 4224 ∷ 4224 ∷ 4224
    ∷ 4224 ∷ 4224 ∷ 4224 ∷ 4224 ∷ 4224 ∷ 4224 ∷ 4224 ∷ 4224 ∷ 4224 ∷ 4224 ∷ 4224 ∷ 4224 ∷ 4224
    ∷ 4224 ∷ 4224 ∷ 4224 ∷ 4224 ∷ 4224 ∷ 4224 ∷ 4224 ∷ 4224 ∷ 4224 ∷ 4224 ∷ 4224 ∷ 4224 ∷ 4224
    ∷ 4224 ∷ 4224 ∷ 4224 ∷ 4224 ∷ 4224 ∷ 4224 ∷ 4224 ∷ []

-- ToLower
unfoldable pub to_lower : ℕ → ℕ
to_lower c = get_or to_lower_tab (c % 256) 0

-- ToUpper
unfoldable pub to_upper : ℕ → ℕ
to_upper c = get_or to_upper_tab (c % 256) 0

-- CharAttrs[(unsigned char)(c)] & mask
unfoldable pub has_attr : ℕ → ℕ → Bool
has_attr mask c = not (bit_and (get_or char_attrs (c % 256) 0) mask == 0)

abbrev pub nick_c : ℕ
nick_c = 0x40

abbrev pub chan_c : ℕ
chan_c = 0x80

abbrev pub user_c : ℕ
user_c = 0x400

abbrev pub host_c : ℕ
host_c = 0x800

abbrev pub space_c : ℕ
space_c = 0x20

-- IsSpace
unfoldable pub is_space : ℕ → Bool
unfolding has_attr
is_space c = has_attr space_c c

-- IsNickChar
unfoldable pub is_nick_char : ℕ → Bool
unfolding has_attr
is_nick_char c = has_attr nick_c c

-- IsChanChar
unfoldable pub is_chan_char : ℕ → Bool
unfolding has_attr
is_chan_char c = has_attr chan_c c

-- IsUserChar
unfoldable pub is_user_char : ℕ → Bool
unfolding has_attr
is_user_char c = has_attr user_c c

-- IsHostChar
unfoldable pub is_host_char : ℕ → Bool
unfolding has_attr
is_host_char c = has_attr host_c c

abbrev eqb : Bool → Bool → Bool
eqb true b = b
eqb false b = not b

folds : ℕ → Bool
folds c =
    to_lower (to_upper c) == to_lower c
    && to_upper (to_lower c) == to_upper c
    && ltb (to_lower c) 256
    && ltb (to_upper c) 256
    && (c == 0 || not (to_upper c == 0))

folds_table : passes_below folds 256 ≡ true
unfolding folds to_lower to_upper passes_below
folds_table = refl

folds_lem :
    (c : ℕ)
    → folds c ≡ true
    → (to_lower (to_upper c) ≡ to_lower c)
      × (to_upper (to_lower c) ≡ to_upper c)
      × (to_lower c < 256)
      × (to_upper c < 256)
      × ((c ≡ 0) ⊎ (to_upper c ≢ 0))
unfolding folds
folds_lem c h = ground arith

-- The two tables fold the same bytes together: each undoes what the other does to a byte's case,
-- both stay below 256, and only NUL is folded to NUL.
pub case_tables_agree :
    (c : ℕ)
    → c < 256
    → (to_lower (to_upper c) ≡ to_lower c)
      × (to_upper (to_lower c) ≡ to_upper c)
      × (to_lower c < 256)
      × (to_upper c < 256)
      × ((c ≡ 0) ⊎ (to_upper c ≢ 0))
case_tables_agree c h = folds_lem c (passes_below_lem folds 256 c h folds_table)

-- Folding decides the same equality by either table.
pub to_upper-eq_iff :
    (a b : ℕ) → a < 256 → b < 256 → (to_upper a ≡ to_upper b) ↔ (to_lower a ≡ to_lower b)
to_upper-eq_iff a b ha hb =
    let ka = case_tables_agree a ha in
    let kb = case_tables_agree b hb in
    ((λ e. sym ka.0 ∙ ap to_lower e ∙ kb.0), (λ e. sym ka.1 ∙ ap to_upper e ∙ kb.1))

nick_fold : ℕ → Bool
nick_fold c = c == 94 || eqb (is_nick_char (to_lower c)) (is_nick_char c)

nick_table : passes_below nick_fold 256 ≡ true
unfolding nick_fold is_nick_char to_lower passes_below
nick_table = refl

nick_fold_lem : (c : ℕ) → nick_fold c ≡ true → c ≢ 94 → is_nick_char (to_lower c) ≡ is_nick_char c
unfolding nick_fold
nick_fold_lem c h ne = ground arith

-- Folding to lower case keeps nickname characters apart from the others, but for '^': that is one,
-- and the '~' that it folds to is none.
pub is_nick_char-to_lower :
    (c : ℕ)
    → c < 256
    → c ≢ 94
    → (is_nick_char (to_lower c) ≡ is_nick_char c)
      × (is_nick_char 94 ≡ true)
      × (is_nick_char (to_lower 94) ≡ false)
unfolding is_nick_char to_lower
is_nick_char-to_lower c h ne =
    (nick_fold_lem c (passes_below_lem nick_fold 256 c h nick_table) ne, refl, refl)
