-- ===== src/Chat/Tests.antt =====
-- Replies and runs of applications/morse_chat/morse_chat.c, and each theorem at one of them.
use mathlib.Core.List.{cons-ne-nil}
use micro_morse_chat.Prelude.{
  ◌≤◌, ◌≡◌, ◌↔◌, ◌⊎◌, refl, List, [], ◌∷◌, ◌++◌, none, some, length, length-append, arith,
}
use micro_morse_chat.Stdio.{pos, decimal}
use micro_morse_chat.Chat.{Message, parse_data}
use micro_morse_chat.Chat.Parse.{IsSendable, AllSendable, IsReadable, reply, parse_data-reply}
use micro_morse_chat.Chat.Overflow.{HasLong, parse_data-overflows_iff}
use micro_morse_chat.Chat.Empty.{swallowed, parse_data-empty}
use micro_morse_chat.Stdio.Decimal.{length-decimal}
use micro_morse_chat.Stdio.Words.{IsInk}

dot-IsInk : IsInk b'.'
dot-IsInk = (refl, omega arith)

-- The letter R from user 12, and S from user 3.
abbrev pub letter_r : Message
letter_r = record { uid = pos 12; morse = b'.' ∷ b'-' ∷ b'.' ∷ [] }

abbrev pub letter_s : Message
letter_s = record { uid = pos 3; morse = b'.' ∷ b'.' ∷ b'.' ∷ [] }

abbrev pub both : List Message
both = letter_r ∷ letter_s ∷ []

letter_r-IsSendable : IsSendable letter_r
letter_r-IsSendable = record {
  user = 12;
  user_eq = refl;
  user_lt = omega arith;
  morse_ne = cons-ne-nil b'.' (b'-' ∷ b'.' ∷ []);
  morse_ink = (dot-IsInk, ((refl, omega arith), (dot-IsInk, tt)));
  morse_lt = omega arith;
}

letter_s-IsSendable : IsSendable letter_s
letter_s-IsSendable = record {
  user = 3;
  user_eq = refl;
  user_lt = omega arith;
  morse_ne = cons-ne-nil b'.' (b'.' ∷ b'.' ∷ []);
  morse_ink = (dot-IsInk, (dot-IsInk, (dot-IsInk, tt)));
  morse_lt = omega arith;
}

pub both-AllSendable : AllSendable both
both-AllSendable = (letter_r-IsSendable, (letter_s-IsSendable, tt))

parse_data-reply_example : parse_data (reply 10 both ++ 0 ∷ []) (pos 7) ≡ some (pos 2, both)
parse_data-reply_example = parse_data-reply 10 both [] (pos 7) refl (omega arith) both-AllSendable

-- An empty message of user 12 in front of the other.
parse_data-empty_example :
    parse_data
      (reply 10 (record { uid = pos 12; morse = [] } ∷ letter_s ∷ []) ++ 0 ∷ 0 ∷ [])
      (pos 0)
    ≡ some (
      pos 2,
      record { uid = pos 12; morse = swallowed 3 letter_s.morse }
          ∷ record { uid = pos 0; morse = [] }
          ∷ [],
    )
parse_data-empty_example =
    parse_data-empty 10 12 3 letter_s.morse 0 [] (pos 0) refl
      (dot-IsInk, (dot-IsInk, (dot-IsInk, tt))) (omega arith)
      (omega (
        arith,
        length-append (decimal 3) (b',' ∷ letter_s.morse),
        length-decimal 0 3 (omega arith),
      ))

-- The letter E from user 12345.
abbrev from_afar : Message
from_afar = record { uid = pos 12345; morse = b'.' ∷ [] }

from_afar-IsReadable : IsReadable from_afar
from_afar-IsReadable = record {
  sender = 12345;
  sender_eq = refl;
  word_ne = cons-ne-nil b'.' [];
  word_ink = (dot-IsInk, tt);
  word_lt = omega arith;
}

parse_data-overflows_iff_example :
    (parse_data (reply 10 (from_afar ∷ []) ++ 0 ∷ []) (pos 7) ≡ none)
    ↔ ((10000 ≤ length (from_afar ∷ [])) ⊎ HasLong (from_afar ∷ []))
parse_data-overflows_iff_example =
    parse_data-overflows_iff 10 (from_afar ∷ []) [] (pos 7) refl (from_afar-IsReadable, tt)
