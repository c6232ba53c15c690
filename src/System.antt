-- ===== src/System.antt =====
-- What the service stands on: the two servers that it drives (Redis and Incus, through the methods of
-- internal/redisstore and internal/incusclient), the answers that come from outside, and the calls'
-- monad. Redis and Incus are parameters. Everything that differs from one call to the next (the
-- clock, new identifiers, random passwords, a database that does not answer) is read from a table at
-- a counter of such readings, so a theorem over all tables covers all runs.
mod Monad
mod Calls
pub use Monad.{
  M, pure, fail, ◌>>=◌, ◌>>◌, ignore, attempt, raise_if, settle, finally, within, map_error,
  bind_rule, bind_succeeds, within_succeeds,
}
unfoldable pub use Calls.*
