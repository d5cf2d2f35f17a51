-- ===== src/Buffutil/Sign.antt =====
-- The type signs of utils/buffutil/custom.go.
use Prim.Native.Nat.{ℕ}

abbrev pub byte : ℕ
byte = b'b'

abbrev pub short : ℕ
short = b't'

abbrev pub int : ℕ
int = b'i'

abbrev pub long : ℕ
long = b'l'

abbrev pub str : ℕ
str = b's'

abbrev pub float : ℕ
float = b'f'

abbrev pub ints : ℕ
ints = b'I'

abbrev pub array : ℕ
array = b'A'

abbrev pub dict : ℕ
dict = b'M'

abbrev pub hash : ℕ
hash = b'H'

abbrev pub bool : ℕ
bool = b'B'

abbrev pub null : ℕ
null = b'N'
