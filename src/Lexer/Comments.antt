-- ===== src/Lexer/Comments.antt =====
-- compiler/lexer/src/lexer.rs: what the test for unterminated comments rejects.
use mathlib.Core.List.{append_assoc}
use kaspa_script.Prelude.{
  ℕ, ◌+◌, ◌≡◌, refl, ◌∙◌, String, Bool, true, false, List, [], ◌∷◌, ◌++◌, none, some, ◌==◌, ◌&&◌,
}
use kaspa_script.Prelude.Fault.{err}
use kaspa_script.Syntax.Token.{new_span}
use kaspa_script.Lexer.Lex.{
  Raw, error_at, char_indices, open_comment, detect_unterminated_block_comment, lex_file,
}

-- No character with the code `n` stands directly before one with the code `k`.
abbrev pub Without : ℕ → ℕ → List (ℕ × ℕ) → Type 0
Without n k [] = Unit
Without n k (x ∷ []) = Unit
Without n k (x ∷ y ∷ rest) = (((x.1 == n) && (y.1 == k)) ≡ false) × Without n k (y ∷ rest)

skip_one :
    (x y : ℕ × ℕ) (rest : List (ℕ × ℕ))
    → ((x.1 == 47) && (y.1 == 42)) ≡ false
    → open_comment none (x ∷ y ∷ rest) ≡ open_comment none (y ∷ rest)
unfolding open_comment
skip_one x y rest h = rw (h, open_comment) refl

and_false : (b : Bool) → (b && false) ≡ false
and_false true = refl
and_false false = refl

-- What stands in front of a comment, without a `/*`, is passed over.
open_comment-skip :
    (before : List (ℕ × ℕ)) (o : ℕ) (rest : List (ℕ × ℕ))
    → Without 47 42 before
    → open_comment none (before ++ (o, 47) ∷ rest) ≡ open_comment none ((o, 47) ∷ rest)
open_comment-skip [] o rest h = refl
open_comment-skip (x ∷ []) o rest h = skip_one x (o, 47) rest (and_false (x.1 == 47))
open_comment-skip (x ∷ x' ∷ before) o rest h =
    skip_one x x' (before ++ (o, 47) ∷ rest) h.0 ∙ open_comment-skip (x' ∷ before) o rest h.1

-- A comment without `*/` after its start stays open.
open_comment-stays :
    (after : List (ℕ × ℕ)) (start : ℕ)
    → Without 42 47 after
    → open_comment (some start) after ≡ some start
unfolding open_comment
open_comment-stays [] start h = refl
open_comment-stays (x ∷ []) start h = refl
open_comment-stays (x ∷ y ∷ after) start h =
    rw (h.0, open_comment) (open_comment-stays (y ∷ after) start h.1)

open_comment-opens :
    (o o' : ℕ) (after : List (ℕ × ℕ))
    → Without 42 47 after
    → open_comment none ((o, 47) ∷ (o', 42) ∷ after) ≡ some o
unfolding open_comment
open_comment-opens o o' after h = open_comment-stays after o h

-- A comment closes at its first `*/`.
open_comment-closes :
    (inner : List (ℕ × ℕ)) (start p p' : ℕ) (rest : List (ℕ × ℕ))
    → Without 42 47 inner
    → open_comment (some start) (inner ++ (p, 42) ∷ (p', 47) ∷ rest) ≡ open_comment none rest
unfolding open_comment
open_comment-closes [] start p p' rest h = refl
open_comment-closes (x ∷ []) start p p' rest h = rw (and_false (x.1 == 42), open_comment) refl
open_comment-closes (x ∷ y ∷ inner) start p p' rest h =
    rw (h.0, open_comment) (open_comment-closes (y ∷ inner) start p p' rest h.1)

-- A text whose comments are closed: without a `/*`, or with one, up to the first `*/` after it, and such
-- a text behind that.
pub data Closed : List (ℕ × ℕ) → Type 0 where
  plain : {text : List (ℕ × ℕ)} → Without 47 42 text → Closed text
  comment :
      (text inner rest : List (ℕ × ℕ)) (o o' p p' : ℕ)
      → Without 47 42 text
      → Without 42 47 inner
      → Closed rest
      → Closed (text ++ (o, 47) ∷ (o', 42) ∷ (inner ++ (p, 42) ∷ (p', 47) ∷ rest))

-- Text whose comments are closed is passed over.
open_comment-Closed :
    {before : List (ℕ × ℕ)} (o : ℕ) (rest : List (ℕ × ℕ))
    → Closed before
    → open_comment none (before ++ (o, 47) ∷ rest) ≡ open_comment none ((o, 47) ∷ rest)
unfolding open_comment
open_comment-Closed o rest (plain {text} h) = open_comment-skip text o rest h
open_comment-Closed o rest (comment text inner behind q q' p p' h k more) =
    rw
      (
        append_assoc text ((q, 47) ∷ (q', 42) ∷ (inner ++ (p, 42) ∷ (p', 47) ∷ behind))
            ((o, 47) ∷ rest),
        append_assoc inner ((p, 42) ∷ (p', 47) ∷ behind) ((o, 47) ∷ rest),
      )
      (open_comment-skip text q _ h
        ∙ open_comment-closes inner q p p' (behind ++ (o, 47) ∷ rest) k
        ∙ open_comment-Closed o rest more)

-- A source in which `/*` stands, behind a text whose comments are closed and with no `*/` after it, is
-- rejected there as an unterminated block comment, whatever the raw tokens are: also where that `/*`
-- stands in a string or in a line comment.
pub lex_file-open_comment :
    (lexer : String → List Raw) (source file : String) (before after : List (ℕ × ℕ)) (o o' : ℕ)
    → char_indices 0 source ≡ before ++ (o, 47) ∷ (o', 42) ∷ after
    → Closed before
    → Without 42 47 after
    → lex_file lexer source file
      ≡ err (error_at source file (new_span o (o + 2)) "unterminated block comment")
unfolding lex_file detect_unterminated_block_comment
lex_file-open_comment lexer source file before after o o' h b a =
    let opened : open_comment none (char_indices 0 source) ≡ some o =
      (rw h (open_comment-Closed o ((o', 42) ∷ after) b)) ∙ open_comment-opens o o' after a in
    rw opened refl
