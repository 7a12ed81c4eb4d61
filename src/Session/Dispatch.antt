-- ===== src/Session/Dispatch.antt =====
-- src/ws/handler.rs: `dispatch`.
use pylon.Protocol.Event.{pong}
use pylon.Protocol.Command.{ClientCommand}
use pylon.Session.{Platform, Config, Moment, Session, send_self}
use pylon.Session.Subscribe.{subscribe}
use pylon.Session.Unsubscribe.{unsubscribe}
use pylon.Session.ClientEvent.{client_event}
use pylon.Session.Signin.{signin}

module _ {Value Mailbox : Type 0} (p : Platform Value Mailbox) (c : Config Mailbox) where
  -- `dispatch`
  unfoldable pub dispatch : Moment → ClientCommand Value → Session p → Session p
  dispatch t ClientCommand.ping s = send_self p c pong s
  dispatch t (ClientCommand.subscribe channel auth channel_data) s =
      subscribe p c t channel auth channel_data s
  dispatch t (ClientCommand.unsubscribe channel) s = unsubscribe p c channel s
  dispatch t (ClientCommand.client_event event channel payload) s =
      client_event p c t event channel payload s
  dispatch t (ClientCommand.signin auth user_data) s = signin p c auth user_data s
  dispatch t (ClientCommand.unknown raw) s = s
