-- ===== src/Message/StartupExamples.antt =====
-- The start of the message service with a configuration file.
use imsystem.Prelude.{ℕ, ◌+◌, true, some, ◌≡◌, refl}
use imsystem.Common.Chars.Numbers.{stoi}
use imsystem.Common.Config.{load, get_int, lookup}
use imsystem.Common.SampleFile.{sample_file, sample, load-sample}
use imsystem.Prelude.Texts.{text_eq, codes}
use imsystem.Common.Effect.{returned}
use imsystem.Common.MongoPool.{MongoPool, MongoDriver}
use imsystem.Common.MongoPool as Mongo
use imsystem.Common.MysqlPool.{MysqlPool, Driver, new_pool, initialize, fill}
use imsystem.Common.Startup.{init_message, mysql_settings}
use imsystem.Common.Startup.Started.{Ready}
use imsystem.Message.Startup.{start, start_complete}

abbrev driver : Driver ℕ
driver = record {
  connect = λ url user password w. (returned w, w + 1);
  set_schema = λ conn database w. (returned tt, w);
}

abbrev mongo : MongoDriver ℕ
mongo = record {
  make_instance = λ w. (returned tt, w);
  make_pool = λ uri min_size max_size w. (returned w, w + 1);
  acquire = λ pool w. (returned pool, w);
  write_log = λ line w. w;
}

abbrev pools : MysqlPool × MongoPool
pools = (init_message driver mongo sample new_pool Mongo.new_pool 1).0.1

it_starts : (start driver mongo (some sample_file) new_pool Mongo.new_pool 1).0 ≡ some pools
unfolding start init_message initialize fill mysql_settings get_int lookup Mongo.initialize text_eq
    codes stoi
it_starts = rw load-sample refl

start_complete_example :
    ((load (some sample_file)).0 ≡ true) × Ready (load (some sample_file)).1 pools
start_complete_example =
    start_complete driver mongo (some sample_file) new_pool Mongo.new_pool 1 pools refl refl refl
      it_starts
