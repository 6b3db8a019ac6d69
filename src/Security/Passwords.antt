-- ===== src/Security/Passwords.antt =====
-- `PasswordManager` of src/security/security_manager.cpp, over the bytes of a password.
use Prim.Native.String.{String}
use lattice_db_next_gen_dbms.Prelude.{ℕ, Bool, false, not, ◌&&◌, ◌||◌, List, [], ◌∷◌, ◌++◌}
use lattice_db_next_gen_dbms.Prelude.Tests.{◌==◌, leb}
use lattice_db_next_gen_dbms.Prelude.Lists.{length}
use lattice_db_next_gen_dbms.Prelude.Names

-- What the code takes from the platform: `std::hash` of a text, printed. Salts and tokens of the
-- random generator are arguments of the operations that draw them.
pub record Secrets : Type 0 where
  pub hash_text : List ℕ → String

-- `hash_password`.
abbrev pub hash_password : Secrets → List ℕ → List ℕ → String
hash_password secrets password salt = secrets.hash_text (salt ++ password)

-- `verify_password`.
abbrev pub verify_password : Secrets → List ℕ → String → List ℕ → Bool
verify_password secrets password hash salt = Names.same (hash_password secrets password salt) hash

unfoldable pub has_uppercase : List ℕ → Bool
has_uppercase [] = false
has_uppercase (c ∷ p) = (leb b'A' c && leb c b'Z') || has_uppercase p

unfoldable pub has_lowercase : List ℕ → Bool
has_lowercase [] = false
has_lowercase (c ∷ p) = (leb b'a' c && leb c b'z') || has_lowercase p

unfoldable pub has_digit : List ℕ → Bool
has_digit [] = false
has_digit (c ∷ p) = (leb b'0' c && leb c b'9') || has_digit p

-- `std::isalnum` of the C locale.
abbrev pub is_alnum : ℕ → Bool
is_alnum c = (leb b'A' c && leb c b'Z') || (leb b'a' c && leb c b'z') || (leb b'0' c && leb c b'9')

unfoldable pub has_special_chars : List ℕ → Bool
has_special_chars [] = false
has_special_chars (c ∷ p) = not (c == b' ' || is_alnum c) || has_special_chars p

-- `is_password_strong`.
unfoldable pub is_password_strong : List ℕ → Bool
is_password_strong p =
    leb 8 (length p) && has_uppercase p && has_lowercase p && has_digit p && has_special_chars p
