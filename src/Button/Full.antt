-- ===== src/Button/Full.antt =====
-- A full message of applications/morse_button/morse_button.c: the tenth symbol hands it to the chat
-- application, and the buttons do nothing until the answer.
use mathlib.Core.List.{append-nil}
use micro_morse_chat.Prelude.{
  ℕ, ◌+◌, ◌≡◌, refl, ap, sym, ◌∙◌, Bool, true, false, List, [], ◌∷◌, ◌++◌, length, set, take, drop,
  replicate, length-append, set-append, take-all, arith,
}
use micro_morse_chat.Button.{
  message_len, message_size, Button, then_reset, check_full, button_callback, Event, button,
  answered, handle, run,
}
use micro_morse_chat.Button.Sequence.{
  Symbol, dot, dash, code_of, codes_of, typed, opening, left_waiting, IsListening, IsFresh,
  run-append, type_all, enter, length-codes_of,
}

-- The presses and releases of `ps`, each a button and a value.
abbrev pub clicks : List (ℕ × ℕ) → List Event
clicks [] = []
clicks ((btn_num, val) ∷ ps) = button btn_num val ∷ clicks ps

-- With a full buffer in the send mode no press and no release changes the state.
clicks-full :
    (b : Button) (ps : List (ℕ × ℕ))
    → b.send_mode_active ≡ true
    → b.buffer_full ≡ true
    → run b (clicks ps) ≡ b
unfolding run handle
clicks-full b [] a f = refl
clicks-full b ((btn_num, val) ∷ ps) a f =
    let still : button_callback b btn_num val ≡ b = ground arith in
    ap (λ x. run x (clicks ps)) still ∙ clicks-full b ps a f

whole :
    {n : ℕ} (c : ℕ) (p : List ℕ)
    → length p ≡ n
    → n + 1 ≡ message_len
    → take message_size (p ++ c ∷ 0 ∷ []) ≡ p ++ c ∷ 0 ∷ []
whole c p el lt =
    take-all message_size (p ++ c ∷ 0 ∷ []) (omega (arith, length-append p (c ∷ 0 ∷ [])))

-- The state behind the tenth symbol: the message is handed over and the callback waits.
abbrev pub handed : Button → List ℕ → Button
handed b m = record b {
  message = m;
  idx = message_len;
  buffer_full = true;
  main_done = false;
  main_buff = m ++ drop message_size b.main_buff;
  waiting = then_reset ∷ b.waiting;
  notified = (m ++ drop message_size b.main_buff) ∷ b.notified;
}

check_full-handed :
    (b : Button)
    → b.idx ≡ message_len
    → take message_size b.message ≡ b.message
    → check_full b ≡ handed b b.message
unfolding check_full
check_full-handed b e t = ground arith

add-dot :
    (b : Button)
    → IsListening b
    → b.idx + 1 ≡ message_len
    → run b (typed (dot ∷ []))
      ≡ check_full (record b { message = set b.message b.idx b'.'; idx = message_len })
unfolding run handle
add-dot b h e = ground arith

add-dash :
    (b : Button)
    → IsListening b
    → b.idx + 1 ≡ message_len
    → run b (typed (dash ∷ []))
      ≡ check_full (record b { message = set b.message b.idx b'-'; idx = message_len })
unfolding run handle
add-dash b h e = ground arith

full_one :
    (b : Button) (s : Symbol) (p : List ℕ)
    → IsListening b
    → b.message ≡ p ++ 0 ∷ 0 ∷ []
    → length p ≡ b.idx
    → b.idx + 1 ≡ message_len
    → run b (typed (s ∷ [])) ≡ handed b (p ++ code_of s ∷ 0 ∷ [])
full_one b dot p h em el e =
    let m : List ℕ = p ++ b'.' ∷ 0 ∷ [] in
    let written : set b.message b.idx b'.' ≡ m = rw (em, sym el) (set-append p 0 (0 ∷ []) b'.') in
    add-dot b h e
    ∙ rw written
        (check_full-handed (record b { message = m; idx = message_len }) refl (whole b'.' p el e))
full_one b dash p h em el e =
    let m : List ℕ = p ++ b'-' ∷ 0 ∷ [] in
    let written : set b.message b.idx b'-' ≡ m = rw (em, sym el) (set-append p 0 (0 ∷ []) b'-') in
    add-dash b h e
    ∙ rw written
        (check_full-handed (record b { message = m; idx = message_len }) refl (whole b'-' p el e))

-- The buttons while the full message waits, and the answer.
answer-handed :
    (b : Button) (acknowledged : Bool) (m : List ℕ) (ps : List (ℕ × ℕ))
    → b.send_mode_active ≡ true
    → b.waiting ≡ left_waiting acknowledged
    → let b' = run (handed b m) (clicks ps ++ answered ∷ []) in
      IsFresh b' × (b'.notified ≡ (m ++ drop message_size b.main_buff) ∷ b.notified)
unfolding handle run
answer-handed b true m ps a w =
    rw (run-append (handed b m) (clicks ps) (answered ∷ []), clicks-full (handed b m) ps a refl)
      (ground arith)
answer-handed b false m ps a w =
    rw (run-append (handed b m) (clicks ps) (answered ∷ []), clicks-full (handed b m) ps a refl)
      (ground arith)

-- The tenth symbol hands the message over, from where the events `ending` go on.
tenth_symbol :
    (b : Button) (acknowledged : Bool) (ss : List Symbol) (s : Symbol)
    → IsFresh b
    → length ss + 1 ≡ message_len
    → let entered = set b.main_buff 0 0xff in
      let m = codes_of ss ++ code_of s ∷ 0 ∷ [] in
      (c : Button) × (c.send_mode_active ≡ true)
      × (c.waiting ≡ left_waiting acknowledged)
      × (c.main_buff ≡ entered)
      × (c.notified ≡ entered ∷ b.notified)
      × ((ending : List Event)
          → run b (opening acknowledged ++ (typed ss ++ (typed (s ∷ []) ++ ending)))
            ≡ run (handed c m) ending)
tenth_symbol b acknowledged ss s h lt =
    let b1 = run b (opening acknowledged) in
    let (listening, index, bytes, waits, buff, told) = enter b acknowledged h in
    let room : message_size ≡ length ss + 2 = omega arith in
    let c : Button = record b1 { message = codes_of ss ++ 0 ∷ 0 ∷ []; idx = b1.idx + length ss } in
    let typing : run b1 (typed ss) ≡ c =
      type_all ss b1 [] 2 listening (bytes ∙ ap (λ k. replicate k 0) room) (sym index)
        (omega arith) in
    let listening_c : IsListening c = record {
      is_active = listening.is_active;
      no_sequence = listening.no_sequence;
      no_button = listening.no_button;
      not_full = listening.not_full;
    } in
    let last =
      full_one c s (codes_of ss) listening_c refl (omega (arith, length-codes_of ss))
        (omega arith) in
    (
      c,
      listening.is_active,
      waits,
      buff,
      told,
      λ ending.
          run-append b (opening acknowledged) (typed ss ++ (typed (s ∷ []) ++ ending))
          ∙ run-append b1 (typed ss) (typed (s ∷ []) ++ ending)
          ∙ ap (λ x. run x (typed (s ∷ []) ++ ending)) typing
          ∙ run-append c (typed (s ∷ [])) ending
          ∙ ap (λ x. run x ending) last,
    )

-- A whole message of ten symbols, `ss` and then `s`, from a state in which nobody uses the
-- application, with any presses and releases `ps` between the tenth symbol and the answer, whether the
-- entering sequence was answered or not: no closing sequence is needed, the presses and releases in
-- `ps` leave the state behind the tenth symbol as it is, and after the answer nobody uses the
-- application. The chat application was notified exactly twice: first with 0xff in the first byte of
-- the shared buffer, then with the ten codes in their order and a closing 0.
pub full_round :
    (b : Button) (acknowledged : Bool) (ss : List Symbol) (s : Symbol) (ps : List (ℕ × ℕ))
    → IsFresh b
    → length ss + 1 ≡ message_len
    → let b' =
        run b (
          opening acknowledged ++ (typed ss ++ (typed (s ∷ []) ++ (clicks ps ++ answered ∷ [])))) in
      let entered = set b.main_buff 0 0xff in
      (run b (opening acknowledged ++ (typed ss ++ (typed (s ∷ []) ++ clicks ps)))
        ≡ run b (opening acknowledged ++ (typed ss ++ typed (s ∷ []))))
      × IsFresh b'
      × (b'.notified
          ≡ (codes_of ss ++ code_of s ∷ 0 ∷ [] ++ drop message_size entered) ∷ entered ∷ b.notified)
unfolding run
full_round b acknowledged ss s ps h lt =
    let (c, active, waits, buff, told, all) = tenth_symbol b acknowledged ss s h lt in
    let m : List ℕ = codes_of ss ++ code_of s ∷ 0 ∷ [] in
    let (fresh, sent) = answer-handed c acknowledged m ps active waits in
    (
      all (clicks ps)
          ∙ clicks-full (handed c m) ps active refl
          ∙ sym (all [])
          ∙ ap (λ x. run b (opening acknowledged ++ (typed ss ++ x))) (append-nil (typed (s ∷ []))),
      rw (all (clicks ps ++ answered ∷ [])) fresh,
      rw (all (clicks ps ++ answered ∷ [])) (sent ∙ rw (buff, told)),
    )
