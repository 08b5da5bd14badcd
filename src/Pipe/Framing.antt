-- ===== src/Pipe/Framing.antt =====
-- Lines of a stream of bytes, and the calls of `DispatchCompleteLines` in
-- apps/host_agent/src/ipc/named_pipe_server_win32.cpp.
use mathlib.Core.List.{append_assoc, append-nil}
use native.Mathlib.Numerals.{add-one}
use capacity_agent.Base.{
  ℕ, zero, suc, ◌<◌, ◌≡◌, refl, sym, inl, inr, true, false, ◌==◌, none, some, List, [], ◌∷◌, ◌++◌,
  Text, take, drop, length, length-drop, Option-cases, Bool-cases, if◌then◌else◌, arith,
}
use capacity_agent.Base.Options.{some_inj}
use capacity_agent.Pipe.{
  newline, find, pop_carriage_return, handle, dispatch_lines, dispatch_complete_lines, Event, read,
  failed, flush, serve, Connection, connected, halted, run,
}

-- A text cut at its newlines: the complete lines, and what follows the last newline.
pub record Cut : Type 0 where
  pub lines : List Text
  pub last : Text

abbrev pub extend : ℕ → Cut → Cut
extend c k = elim k.lines [
  | [] ↦ record { lines = []; last = c ∷ k.last }
  | l ∷ ls ↦ record { lines = (c ∷ l) ∷ ls; last = k.last }
]

pub cut : Text → Cut
cut [] = record { lines = []; last = [] }
cut (c ∷ text) =
    let k = cut text in
    if c == newline then record { lines = [] ∷ k.lines; last = k.last } else extend c k

-- The messages in some lines: without a carriage return at the end, and not empty.
pub select : List Text → List Text
select [] = []
select (l ∷ ls) = handle (pop_carriage_return l) (select ls)

pub messages : Text → List Text
messages text = select ((cut text).lines ++ (cut text).last ∷ [])

handle-append : (l : Text) (xs ys : List Text) → handle l (xs ++ ys) ≡ handle l xs ++ ys
handle-append [] xs ys = refl
handle-append (c ∷ l) xs ys = refl

select-append : (ls ms : List Text) → select (ls ++ ms) ≡ select ls ++ select ms
unfolding select
select-append [] ms = refl
select-append (l ∷ ls) ms = rw (select-append ls ms) (handle-append (pop_carriage_return l) _ _)

cut-find-none :
    (text : Text) → find newline text ≡ none → cut text ≡ record { lines = []; last = text }
unfolding cut find
cut-find-none [] e = refl
cut-find-none (c ∷ text) e = elim (Bool-cases (c == newline)) [
  | inl here ↦ absurd (cc (rw (here, find) at e))
  | inr other ↦ elim (Option-cases (find newline text)) [
    | inl none' ↦ rw (other, cut-find-none text none') refl
    | inr (k, there) ↦ absurd (cc (rw (other, there, find) at e))
  ]
]

cut-find-some :
    (text : Text) (k : ℕ)
    → find newline text ≡ some k
    → cut text ≡ record {
      lines = take k text ∷ (cut (drop (suc k) text)).lines;
      last = (cut (drop (suc k) text)).last;
    }
unfolding cut find
cut-find-some [] k e = cc
cut-find-some (c ∷ text) k e = elim (Bool-cases (c == newline)) [
  | inl here ↦ let first : k ≡ 0 = sym (some_inj (rw (here, find) at e)) in rw (here, first) refl
  | inr other ↦ elim (Option-cases (find newline text)) [
    | inl none' ↦ absurd (cc (rw (other, none', find) at e))
    | inr (j, there) ↦
        let next : suc j ≡ k = some_inj (rw (other, there, find) at e) in
        rw (other, ← next, cut-find-some text j there) refl
  ]
]

find-lt : (text : Text) (k : ℕ) → find newline text ≡ some k → k < length text
unfolding find
find-lt [] k e = cc
find-lt (c ∷ text) k e = elim (Option-cases (find newline text)) [
  | inl none' ↦ ground arith
  | inr (j, there) ↦ ground (arith, find-lt text j there)
]

-- With one round for each byte, and one more, the loop ends because no newline is left.
dispatch_lines-cut :
    (fuel : ℕ) (text : Text)
    → length text < fuel
    → dispatch_lines fuel text
      ≡ record { pending = (cut text).last; handled = select (cut text).lines }
unfolding dispatch_lines
dispatch_lines-cut zero text h = absurd (omega arith)
dispatch_lines-cut (suc fuel) text h = elim (Option-cases (find newline text)) [
  | inl none' ↦ rw (none', dispatch_lines, cut-find-none text none') (unfold select in refl)
  | inr (k, there) ↦
      let shorter : length (drop (suc k) text) < fuel =
        omega (arith, length-drop (suc k) text, find-lt text k there) in
      rw
        (
          there,
          dispatch_lines,
          add-one k,
          dispatch_lines-cut fuel (drop (suc k) text) shorter,
          cut-find-some text k there,
        )
        (unfold select in refl)
]

abbrev continued : Text → Cut → Cut
continued b k = record {
  lines = k.lines ++ (cut (k.last ++ b)).lines;
  last = (cut (k.last ++ b)).last;
}

extend-continued :
    (c : ℕ) (b : Text) (lines : List Text) (last : Text)
    → (c == newline) ≡ false
    → extend c (continued b (record { lines = lines; last = last }))
      ≡ continued b (extend c (record { lines = lines; last = last }))
unfolding cut
extend-continued c b [] last other = rw other refl
extend-continued c b (l ∷ ls) last other = refl

-- A text that goes on after `a` continues its last line.
cut-append : (a b : Text) → cut (a ++ b) ≡ continued b (cut a)
unfolding cut
cut-append [] b = refl
cut-append (c ∷ a) b = elim (Bool-cases (c == newline)) [
  | inl here ↦ rw (here, cut-append a b) refl
  | inr other ↦ rw (other, cut-append a b) (extend-continued c b (cut a).lines (cut a).last other)
]

-- The last line holds no newline.
cut-last : (text : Text) → cut (cut text).last ≡ record { lines = []; last = (cut text).last }
unfolding cut
cut-last [] = refl
cut-last (c ∷ text) = elim (Bool-cases (c == newline)) [
  | inl here ↦ rw (here, cut-last text) refl
  | inr other ↦ rw other (extend-last c (cut text).lines (cut text).last other (cut-last text))
]
  where
    extend-last :
        (c : ℕ) (lines : List Text) (last : Text)
        → (c == newline) ≡ false
        → cut last ≡ record { lines = []; last = last }
        → cut (extend c (record { lines = lines; last = last })).last
          ≡ record { lines = []; last = (extend c (record { lines = lines; last = last })).last }
    extend-last c [] last other e = rw (other, e) refl
    extend-last c (l ∷ ls) last other e = e

messages-append :
    (a b : Text) → messages (a ++ b) ≡ select (cut a).lines ++ messages ((cut a).last ++ b)
unfolding messages
messages-append a b =
    rw (cut-append a b, append_assoc (cut a).lines (cut ((cut a).last ++ b)).lines)
      (select-append (cut a).lines _)

abbrev pub concat : List Text → Text
concat [] = []
concat (chunk ∷ chunks) = chunk ++ concat chunks

-- The events of a connection whose reads succeed until the client is done.
pub reads : List Text → List Event
reads [] = failed ∷ []
reads (chunk ∷ chunks) = read chunk ∷ reads chunks

abbrev pub AllNonEmpty : List Text → Type 0
AllNonEmpty [] = Unit {0}
AllNonEmpty ([] ∷ chunks) = ⊥
AllNonEmpty ((c ∷ chunk) ∷ chunks) = AllNonEmpty chunks

serve-messages :
    (pending : Text) (chunks : List Text)
    → AllNonEmpty chunks
    → cut pending ≡ record { lines = []; last = pending }
    → (serve pending (reads chunks)).calls ≡ messages (pending ++ concat chunks)
unfolding serve reads
serve-messages pending [] h e =
    rw (append-nil pending) (unfold messages flush in rw e (unfold select in refl))
serve-messages pending ([] ∷ chunks) h e = absurd h
serve-messages pending ((c ∷ chunk) ∷ chunks) h e =
    let text = pending ++ (c ∷ chunk) in
    rw
      (
        dispatched text,
        serve-messages (cut text).last chunks h (cut-last text),
        ← append_assoc pending,
      )
      (sym (messages-append text (concat chunks)))
  where
    dispatched :
        (text : Text)
        → dispatch_complete_lines text
          ≡ record { pending = (cut text).last; handled = select (cut text).lines }
    dispatched text = unfold dispatch_complete_lines in dispatch_lines-cut _ text (omega arith)

-- However the bytes of a connection were cut into reads, none of them empty, the handler is called
-- with the same messages, in the order of the stream: its lines, without a carriage return at the
-- end of a line and without empty lines, and what follows the last newline as a line of its own.
serve-eq_messages :
    (chunks : List Text)
    → AllNonEmpty chunks
    → (serve [] (reads chunks)).calls ≡ messages (concat chunks)
serve-eq_messages chunks h = serve-messages [] chunks h (unfold cut in refl)

serve-running :
    (pending : Text) (chunks : List Text) → (serve pending (reads chunks)).running ≡ true
unfolding serve reads
serve-running pending [] = refl
serve-running pending ([] ∷ chunks) = refl
serve-running pending ((c ∷ chunk) ∷ chunks) =
    serve-running (dispatch_complete_lines (pending ++ (c ∷ chunk))).pending chunks

-- Clients that come one after the other, and the stop of the server behind the last.
pub clients : List (List Text) → List Connection
clients [] = halted ∷ []
clients (chunks ∷ streams) = connected (reads chunks) ∷ clients streams

pub all_messages : List (List Text) → List Text
all_messages [] = []
all_messages (chunks ∷ streams) = messages (concat chunks) ++ all_messages streams

abbrev pub AllStreams : List (List Text) → Type 0
AllStreams [] = Unit {0}
AllStreams (chunks ∷ streams) = AllNonEmpty chunks × AllStreams streams

-- `Run` over clients that come one after the other hands on the messages of each stream, in
-- order and with no message made of bytes of two clients, and returns true once it is stopped.
pub run-eq_all_messages :
    (streams : List (List Text))
    → AllStreams streams
    → run (clients streams) ≡ record { calls = all_messages streams; returned = some true }
unfolding run clients all_messages
run-eq_all_messages [] h = refl
run-eq_all_messages (chunks ∷ streams) h =
    rw (serve-running [] chunks, serve-eq_messages chunks h.0, run-eq_all_messages streams h.1) refl
