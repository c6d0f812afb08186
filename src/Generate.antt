-- ===== src/Generate.antt =====
-- pkg/generate/generate.go: the users and messages of the load-testing client. A draw of the
-- random generator is an argument; `rand.Intn(n)` answers below `n`, which `intn` stands for.
pub mod Counts
pub mod Validity
pub mod RoomIds
use Prim.Native.String.{◌++◌}
use chatflow.Prelude.{
  ℕ, zero, suc, ◌+◌, ◌-◌, ◌*◌, ◌/◌, ◌%◌, String, List, [], ◌∷◌, ltb, if◌then◌else◌,
}
use chatflow.Prelude.Atoi.Itoa.{itoa}
use chatflow.Prelude.Seq.{length}
use chatflow.Models.{Message, new_message, message_type_join, message_type_text, message_type_leave}

abbrev pub messages : List String
messages =
    "Why don't scientists trust atoms? Because they make up everything!"
    ∷ "I told my wife she was drawing her eyebrows too high. She looked surprised."
    ∷ "Why don't eggs tell jokes? They'd crack each other up!"
    ∷ "I'm reading a book about anti-gravity. It's impossible to put down!"
    ∷ "Did you hear about the mathematician who's afraid of negative numbers? He'll stop at nothing to avoid them!"
    ∷ "Why did the scarecrow win an award? He was outstanding in his field!"
    ∷ "I used to hate facial hair, but then it grew on me."
    ∷ "What do you call a fake noodle? An impasta!"
    ∷ "Why don't skeletons fight each other? They don't have the guts!"
    ∷ "I'm terrified of elevators, so I'm going to start taking steps to avoid them."
    ∷ "What's the best thing about Switzerland? I don't know, but the flag is a big plus!"
    ∷ "Why did the coffee file a police report? It got mugged!"
    ∷ "I haven't slept for ten days, because that would be too long."
    ∷ "What do you call a bear with no teeth? A gummy bear!"
    ∷ "Why did the bicycle fall over? Because it was two-tired!"
    ∷ "I'm on a seafood diet. I see food and I eat it."
    ∷ "What do you call a sleeping bull? A bulldozer!"
    ∷ "Why don't programmers like nature? It has too many bugs!"
    ∷ "I told a joke about UDP, but I'm not sure if you got it."
    ∷ "There are only 10 types of people: those who understand binary and those who don't."
    ∷ "Why do Java developers wear glasses? Because they can't C#!"
    ∷ "A SQL query goes into a bar, walks up to two tables and asks: 'Can I join you?'"
    ∷ "Why did the developer go broke? Because he used up all his cache!"
    ∷ "How many programmers does it take to change a light bulb? None, that's a hardware problem!"
    ∷ "Why do Python programmers prefer dark mode? Because light attracts bugs!"
    ∷ "I would tell you a joke about an infinite loop, but it would go on forever."
    ∷ "Why did the function break up with the variable? It wasn't returning her calls!"
    ∷ "What's a programmer's favorite hangout place? Foo Bar!"
    ∷ "Why don't databases ever get lonely? They always have relations!"
    ∷ "I'm not lazy, I'm just on energy saving mode."
    ∷ "Why did the cookie go to the doctor? Because it felt crumbly!"
    ∷ "What do you call a dinosaur that crashes his car? Tyrannosaurus Wrecks!"
    ∷ "Why don't scientists trust stairs? Because they're always up to something!"
    ∷ "I used to be addicted to soap, but I'm clean now."
    ∷ "What do you call a fish wearing a crown? A king fish!"
    ∷ "Why did the math book look so sad? Because it had too many problems!"
    ∷ "I'm reading a book on the history of glue. I just can't seem to put it down!"
    ∷ "What do you call a cow with no legs? Ground beef!"
    ∷ "Why did the tomato turn red? Because it saw the salad dressing!"
    ∷ "I'm friends with 25 letters of the alphabet. I don't know Y."
    ∷ "What do you call a belt made of watches? A waist of time!"
    ∷ "Why don't oysters share? Because they're shellfish!"
    ∷ "I used to play piano by ear, but now I use my hands."
    ∷ "What's orange and sounds like a parrot? A carrot!"
    ∷ "Why did the golfer bring two pairs of pants? In case he got a hole in one!"
    ∷ "I'm writing a book about hurricanes. It's only a draft."
    ∷ "What do you call a parade of rabbits hopping backwards? A receding hare-line!"
    ∷ "Why don't melons get married? Because they cantaloupe!"
    ∷ "I used to be a banker, but I lost interest."
    ∷ "What do you call a group of disorganized cats? A cat-astrophe!" ∷ []

abbrev pub intn : ℕ → ℕ → ℕ
intn n draw = draw % n

-- The draws stay below the length.
unfoldable pub nth : List String → ℕ → String
nth [] i = ""
nth (x ∷ xs) zero = x
nth (x ∷ xs) (suc i) = nth xs i

unfoldable pub user_id : ℕ → String
user_id draw = itoa (intn 100000 draw + 1)

unfoldable pub username : String → String
username id = "user-" ++ id

unfoldable pub message : ℕ → String
unfolding nth
message draw = let idx = intn (length messages) draw in itoa idx ++ "--" ++ nth messages idx

unfoldable pub new_join_message : String → String → String → Message
unfolding username new_message
new_join_message now id room_id =
    let msg = new_message id (username id) "" message_type_join in record msg { timestamp = now }

unfoldable pub new_leave_message : String → String → String → Message
unfolding username new_message
new_leave_message now id room_id =
    let msg = new_message id (username id) "" message_type_leave in record msg { timestamp = now }

-- The time is set when the message is written.
unfoldable pub new_text_message : ℕ → String → Message
unfolding username message new_message
new_text_message draw id = new_message id (username id) (message draw) message_type_text

-- `int(float64(messageCount) * 0.05)`, at least 1. The factor is the double next to 0.05, and below
-- `2 ^ 50` the product is rounded down to the quotient by 20.
unfoldable pub num_sessions : ℕ → ℕ
num_sessions message_count = let n = message_count / 20 in if ltb n 1 then 1 else n

-- A difference below zero leads to 0, as it does in the source.
unfoldable pub text_per_session : ℕ → ℕ
unfolding num_sessions
text_per_session message_count =
    (message_count - 2 * num_sessions message_count) / num_sessions message_count

-- The texts from the index on, and the LEAVE behind them.
unfoldable pub texts : (ℕ → ℕ) → String → ℕ → ℕ → List Message → List Message
unfolding new_text_message
texts draw id i zero rest = rest
texts draw id i (suc n) rest = new_text_message (draw i) id ∷ texts draw id (suc i) n rest

-- The sessions from the one numbered `k` on; a session's messages take their time and draws by
-- their position.
unfoldable pub sessions : (ℕ → String) → (ℕ → ℕ) → String → ℕ → ℕ → ℕ → List Message
unfolding texts new_join_message new_leave_message
sessions now draw id n k zero = []
sessions now draw id n k (suc left) =
    new_join_message (now (k * (n + 2))) id ""
    ∷ texts draw id (k * n) n
        (new_leave_message (now (k * (n + 2) + n + 1)) id "" ∷ sessions now draw id n (suc k) left)

unfoldable pub new_session_messages : (ℕ → String) → (ℕ → ℕ) → String → ℕ → List Message
unfolding sessions num_sessions text_per_session
new_session_messages now draw id message_count =
    sessions now draw id (text_per_session message_count) 0 (num_sessions message_count)

-- users[idx] = idx+1, from the index on.
unfoldable pub users_from : ℕ → ℕ → List String
users_from idx zero = []
users_from idx (suc n) = itoa (idx + 1) ∷ users_from (suc idx) n

unfoldable pub new_users : ℕ → List String
unfolding users_from
new_users size = users_from 0 size
