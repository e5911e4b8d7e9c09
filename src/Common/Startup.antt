-- ===== src/Common/Startup.antt =====
-- The start of the connection pools from the configuration: `Init` of
-- user/src/service/auth_service.cpp and of message/src/service/message_service.cpp.
pub mod Started
use imsystem.Prelude.{ℕ, Bool, true, false, not, List, [], if◌then◌else◌}
use imsystem.Prelude.Int.{ℤ, pos}
use imsystem.Prelude.Texts.{Text, codes}
use imsystem.Common.Config.{ConfigMap, get_string, get_int}
use imsystem.Common.MysqlPool.{MysqlPool, Driver, Settings}
use imsystem.Common.MysqlPool as Mysql
use imsystem.Common.MongoPool.{MongoPool, MongoDriver}
use imsystem.Common.MongoPool as Mongo

-- The settings that both services read.
unfoldable pub mysql_settings : ConfigMap → Settings
mysql_settings m = record {
  host = get_string m (codes "dependencies.mysql.host") (codes "127.0.0.1");
  port = get_int m (codes "dependencies.mysql.port") (pos 3306);
  user = get_string m (codes "dependencies.mysql.user") (codes "root");
  password = get_string m (codes "dependencies.mysql.password") [];
  database = get_string m (codes "dependencies.mysql.database") (codes "chat_db");
  pool_size = get_int m (codes "dependencies.mysql.pool_size") (pos 10);
}

module _ {W : Type 0} (driver : Driver W) where
  abbrev pub succeeded : (Bool × MysqlPool) × W → (Bool × MysqlPool) × W
  succeeded ((ok, p), w) = if not ok then ((false, p), w) else ((true, p), w)

  unfoldable pub init_auth : ConfigMap → MysqlPool → W → (Bool × MysqlPool) × W
  init_auth m p w = succeeded (Mysql.initialize driver (mysql_settings m) p w)

module _ {W : Type 0} (driver : Driver W) (mongo : MongoDriver W) where
  abbrev pub mongo_result :
      MysqlPool → (Bool × MongoPool) × W → (Bool × (MysqlPool × MongoPool)) × W
  mongo_result p ((ok, q), w) = if not ok then ((false, (p, q)), w) else ((true, (p, q)), w)

  abbrev pub init_mongo :
      ConfigMap → MongoPool → (Bool × MysqlPool) × W → (Bool × (MysqlPool × MongoPool)) × W
  init_mongo m q ((ok, p), w) =
      if not ok
      then ((false, (p, q)), w)
      else mongo_result p (
          Mongo.initialize mongo
            (get_string m (codes "dependencies.mongodb.uri") (codes "mongodb://127.0.0.1:27017"))
            (get_int m (codes "dependencies.mongodb.min_pool_size") (pos 5))
            (get_int m (codes "dependencies.mongodb.max_pool_size") (pos 20)) q w)

  unfoldable pub init_message :
      ConfigMap → MysqlPool → MongoPool → W → (Bool × (MysqlPool × MongoPool)) × W
  init_message m p q w = init_mongo m q (Mysql.initialize driver (mysql_settings m) p w)
