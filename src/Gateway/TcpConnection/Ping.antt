-- ===== src/Gateway/TcpConnection/Ping.antt =====
-- Frames that contain the word PING.
use imsystem.Prelude.{◌+◌, true, false, [], ◌∷◌, ◌++◌, ◌≡◌, refl, arith}
use imsystem.Prelude.Texts.{Text, codes}
use imsystem.Common.Chars.{starts_with}
use imsystem.Common.Effect.{returned}
use imsystem.Gateway.TcpConnection.{
  Connection, Surroundings, contains, send, parse_and_route_message, on_read,
}

starts_with-append : (w t : Text) → starts_with (w ++ t) w ≡ true
unfolding starts_with
starts_with-append [] t = starts_with_nil t
  where
    starts_with_nil : (t : Text) → starts_with t [] ≡ true
    starts_with_nil [] = refl
    starts_with_nil (c ∷ t) = refl
starts_with-append (c ∷ w) t = ground (arith, starts_with-append w t)

starts_with-contains : (t w : Text) → starts_with t w ≡ true → contains t w ≡ true
unfolding contains
starts_with-contains [] w h = h
starts_with-contains (c ∷ t) w h = rw h refl

contains-append : (before w after : Text) → contains (before ++ (w ++ after)) w ≡ true
unfolding contains
contains-append [] w after = starts_with-contains (w ++ after) w (starts_with-append w after)
contains-append (c ∷ before) w after = ground (arith, contains-append before w after)

-- Whatever stands around the word PING in a frame, also a command that sends a message, a running
-- connection answers PONG and reads on; nothing is parsed and the logic service is not called.
pub on_read-ping :
    {W J : Type 0} (host : Surroundings W J) (before after : Text) (c : Connection) (w : W)
    → c.is_stopped ≡ false
    → on_read host (before ++ (codes "PING" ++ after)) (c, w) ≡ (
      returned tt,
      (
        record c {
          last_active_time = (host.clock w).0;
          write_msg = codes "PONG\n";
          reading = true;
          writing = c.writing + 1;
        },
        (host.clock w).1,
      ),
    )
unfolding on_read parse_and_route_message send
on_read-ping host before after c w up = rw (contains-append before (codes "PING") after, up) refl
