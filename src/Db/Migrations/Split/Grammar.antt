-- ===== src/Db/Migrations/Split/Grammar.antt =====
-- The statements of a migration, described by a grammar: a script is a sequence of statements
-- between semicolons, and a statement is a sequence of string literals, quoted identifiers, line
-- comments and other characters.
use onetrackmind.Common.{
  ℕ, Bool, true, false, ◌&&◌, ◌||◌, not, List, [], ◌∷◌, ◌++◌, append-nil, append_assoc, Text,
  nat_beq, nat_beq_iff, if◌then◌else◌, every, some_of, ◌≡◌, refl, sym, ◌∙◌, ap, arith, ◌≢◌,
}
use onetrackmind.Runtime.Trim.{is_space}
use onetrackmind.Db.Migrations.Split.{
  Mode, normal, single, double, comment, SplitState, split_from, flushed, starts_dash,
  split_sql_statements,
}

pub data Piece : Type 0 where
  literal identifier remark : Text → Piece
  character : ℕ → Piece

-- The mode of a piece's inside, and the character that ends it.
abbrev closer : Mode → ℕ
closer normal = 59
closer single = 39
closer double = 34
closer comment = 10

abbrev pub piece_text : Piece → Text
piece_text (literal s) = 39 ∷ s ++ 39 ∷ []
piece_text (identifier s) = 34 ∷ s ++ 34 ∷ []
piece_text (remark s) = 45 ∷ 45 ∷ s ++ 10 ∷ []
piece_text (character c) = c ∷ []

abbrev pub statement_text : List Piece → Text
statement_text [] = []
statement_text (p ∷ ps) = piece_text p ++ statement_text ps

-- The statements of a script between semicolons, the last one after the last semicolon.
abbrev pub script_text : List Piece → List (List Piece) → Text
script_text ps [] = statement_text ps
script_text ps (qs ∷ rest) = statement_text ps ++ 59 ∷ script_text qs rest

-- White space and comments are no content.
abbrev pub is_content : Piece → Bool
is_content (literal s) = true
is_content (identifier s) = true
is_content (remark s) = false
is_content (character c) = not (is_space c)

abbrev pub statements : List Piece → List (List Piece) → List Text
statements ps [] = flushed (statement_text ps) (some_of is_content ps)
statements ps (qs ∷ rest) =
    flushed (statement_text ps) (some_of is_content ps) ++ statements qs rest

abbrev Without : ℕ → Text → Type 0
Without q s = every (λ c. not (nat_beq c q)) s ≡ true

-- A piece before `rest`: no quote stands for itself, and a dash only before another character.
abbrev pub IsPiece : Piece → Text → Type 0
IsPiece (literal s) rest = Without 39 s
IsPiece (identifier s) rest = Without 34 s
IsPiece (remark s) rest = Without 10 s
IsPiece (character c) rest =
    ((nat_beq c 59 || nat_beq c 39 || nat_beq c 34) ≡ false)
    × ((nat_beq c 45 && starts_dash rest) ≡ false)

abbrev pub IsStatement : List Piece → Type 0
IsStatement [] = Unit
IsStatement (p ∷ ps) = IsPiece p (statement_text ps) × IsStatement ps

abbrev pub IsScript : List Piece → List (List Piece) → Type 0
IsScript ps [] = IsStatement ps
IsScript ps (qs ∷ rest) = IsStatement ps × IsScript qs rest

abbrev at : Mode → Text → Bool → SplitState
at m s k = record { mode = m; current = s; has_content = k }

abbrev counts : Mode → Bool
counts normal = false
counts single = true
counts double = true
counts comment = false

inside-char :
    (m : Mode)
    → m ≢ Mode.normal
    → (s : Text) (k : Bool) (c : ℕ) (rest : Text)
    → split_from (at m s k) (c ∷ rest)
      ≡ split_from
          (at (if nat_beq c (closer m) then Mode.normal else m) (s ++ c ∷ []) (counts m || k))
          rest
unfolding split_from
inside-char normal h s k c rest = absurd (h refl)
inside-char single h s k c rest = refl
inside-char double h s k c rest = refl
inside-char comment h s k c rest = refl

append_char : (s t : Text) (c : ℕ) → (s ++ c ∷ []) ++ t ≡ s ++ c ∷ t
append_char [] t c = refl
append_char (a ∷ s) t c = rw (append_char s t c)

or_twice : (a b : Bool) → (a || (a || b)) ≡ (a || b)
or_twice a b = ground arith

unclosed : (a b : Bool) → (not a && b) ≡ true → (a ≡ false) × (b ≡ true)
unclosed a b h = ground arith

inside-run :
    (m : Mode)
    → m ≢ Mode.normal
    → (t s : Text) (k : Bool) (rest : Text) → Without (closer m) t
    → split_from (at m s k) (t ++ closer m ∷ rest)
      ≡ split_from (at Mode.normal (s ++ (t ++ closer m ∷ [])) (counts m || k)) rest
inside-run m h [] s k rest w =
    rw (inside-char m h s k (closer m) rest, (nat_beq_iff (closer m) (closer m)).1 refl)
inside-run m h (c ∷ t) s k rest w =
    let (inner, more) =
      unclosed (nat_beq c (closer m)) (every (λ x. not (nat_beq x (closer m))) t) w in
    rw (
      inside-char m h s k c (t ++ closer m ∷ rest),
      inner,
      inside-run m h t (s ++ c ∷ []) (counts m || k) rest more,
      append_char s (t ++ closer m ∷ []) c,
      or_twice (counts m) k,
    )

inside-piece :
    (m : Mode)
    → m ≢ Mode.normal
    → (q : ℕ) (t s : Text) (k : Bool) (rest : Text) → Without (closer m) t
    → split_from (at m (s ++ q ∷ []) k) ((t ++ closer m ∷ []) ++ rest)
      ≡ split_from (at Mode.normal (s ++ q ∷ (t ++ closer m ∷ [])) (counts m || k)) rest
inside-piece m h q t s k rest w = rw (
  append_char t rest (closer m),
  inside-run m h t (s ++ q ∷ []) k rest w,
  append_char s (t ++ closer m ∷ []) q,
)

or_end : (k : Bool) → ((k || true) ≡ true) × ((k || false) ≡ k)
or_end k = ground arith

none_holds : (a b c : Bool) → (a || b || c) ≡ false → (a ≡ false) × (b ≡ false) × (c ≡ false)
none_holds a b c h = ground arith

piece-run :
    (p : Piece) (s : Text) (k : Bool) (rest : Text)
    → IsPiece p rest
    → split_from (at Mode.normal s k) (piece_text p ++ rest)
      ≡ split_from (at Mode.normal (s ++ piece_text p) (k || is_content p)) rest
unfolding split_from
piece-run (literal t) s k rest w =
    rw ((or_end k).0) (inside-piece Mode.single (λ e. cc e) 39 t s true rest w)
piece-run (identifier t) s k rest w =
    rw ((or_end k).0) (inside-piece Mode.double (λ e. cc e) 34 t s true rest w)
piece-run (remark t) s k rest w = rw (
  (or_end k).1,
  inside-piece Mode.comment (λ e. cc e) 45 t (s ++ 45 ∷ []) k rest w,
  append_char s (45 ∷ (t ++ 10 ∷ [])) 45,
)
piece-run (character c) s k rest w =
    let (semi, quote, name) = none_holds (nat_beq c 59) (nat_beq c 39) (nat_beq c 34) w.0 in
    rw (w.1, semi, quote, name)

some_or :
    (k a : Bool) (ps : List Piece)
    → ((k || a) || some_of is_content ps) ≡ (k || (a || some_of is_content ps))
some_or k a ps = ground arith

starts-append : (s rest : Text) → starts_dash rest ≡ false → starts_dash (s ++ rest) ≡ starts_dash s
starts-append [] rest h = h
starts-append (c ∷ s) rest h = refl

extend :
    (p : Piece) (s rest : Text) → starts_dash rest ≡ false → IsPiece p s → IsPiece p (s ++ rest)
extend (literal t) s rest h w = w
extend (identifier t) s rest h w = w
extend (remark t) s rest h w = w
extend (character c) s rest h w = rw (starts-append s rest h) w

statement-run :
    (ps : List Piece) (s : Text) (k : Bool) (rest : Text)
    → starts_dash rest ≡ false
    → IsStatement ps
    → split_from (at Mode.normal s k) (statement_text ps ++ rest)
      ≡ split_from (at Mode.normal (s ++ statement_text ps) (k || some_of is_content ps)) rest
statement-run [] s k rest h w = rw ((or_end k).1, append-nil s)
statement-run (p ∷ ps) s k rest h w = rw (
  append_assoc (piece_text p) (statement_text ps) rest,
  piece-run p s k (statement_text ps ++ rest) (extend p (statement_text ps) rest h w.0),
  statement-run ps (s ++ piece_text p) (k || is_content p) rest h w.1,
  append_assoc s (piece_text p) (statement_text ps),
  some_or k (is_content p) ps,
)

flush-end :
    (s : Text) (k : Bool) (ps : List Piece)
    → IsStatement ps
    → split_from (at Mode.normal s k) (statement_text ps)
      ≡ flushed (s ++ statement_text ps) (k || some_of is_content ps)
unfolding split_from
flush-end s k ps w =
    ap (split_from (at Mode.normal s k)) (sym (append-nil (statement_text ps)))
    ∙ statement-run ps s k [] refl w

-- `splitSqlStatements` gives exactly the statements of a script: for every script whose string
-- literals, quoted identifiers and comments are closed, the texts between the semicolons outside
-- them, trimmed and in order, less those that hold only white space and comments.
pub split_sql_statements-statements :
    (ps : List Piece) (rest : List (List Piece))
    → IsScript ps rest
    → split_sql_statements (script_text ps rest) ≡ statements ps rest
unfolding split_sql_statements split_from
split_sql_statements-statements ps [] w = flush-end [] false ps w
split_sql_statements-statements ps (qs ∷ rest) w =
    rw (statement-run ps [] false (59 ∷ script_text qs rest) refl w.0) (
      ap (λ more. flushed (statement_text ps) (some_of is_content ps) ++ more)
        (split_sql_statements-statements qs rest w.1))
