-- ===== src/Examples.antt =====
-- Tests, and the theorems at inputs. `Fixtures` has the small parts that they share.
mod Fixtures
mod Relaying
mod Subscribing
mod Sending
mod Querying
mod Serving
mod Texts
mod Running
mod Starting
mod Commanding
mod Requesting
mod Chain
mod Covering
